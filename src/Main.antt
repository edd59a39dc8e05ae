-- ===== src/Main.antt =====
-- server/main.c: the arguments, the socket, and the loop that accepts connections. The system
-- calls are parameters: `System` has what they return.
pub mod Prints
pub mod Fills
use lso_server.Base.{
  ℕ, ◌/◌, ◌^◌, bit_and, List, [], ◌∷◌, ◌++◌, ℤ, pos, Result, ok, fault, ◌>>=◌, ltb_ℤ, if◌then◌else◌,
}
use lso_server.World.{codes, User, Cmd, pure, ◌>>◌}
use lso_server.Database.{atoi}
use lso_server.Text.{decimal, decimal_int}
use lso_server.Server.{accept_connection}

-- The address has its first byte lowest, as a little-endian machine reads it.
unfoldable pub print_client_addr : ℕ → List ℕ
print_client_addr s_addr =
    decimal (bit_and s_addr 0xff)
    ++ (codes "."
        ++ (decimal (bit_and s_addr 0xff00 / 2 ^ 8)
            ++ (codes "."
                ++ (decimal (bit_and s_addr 0xff0000 / 2 ^ 16)
                    ++ (codes "." ++ decimal (bit_and s_addr 0xff000000 / 2 ^ 24))))))

pub record System : Type 0 where
  pub socket : ℤ
  pub setsockopt : ℤ
  pub bind : ℤ
  pub listen : ℤ

-- `main` returns before its loop, or enters it with the socket that it listens on.
pub data Started : Type 0 where
  exits : ℤ → Started
  accepts_on : (listenfd port : ℤ) → Started

abbrev pub exit_failure : ℤ
exit_failure = pos 1

-- What is printed, in order, and what becomes of `main`. Of `perror` only the argument is kept.
abbrev Startup : Type 0
Startup = List (List ℕ) × Started

abbrev pub listen_on : System → ℤ → Startup
listen_on system port =
    let hello = codes "Listening on 0.0.0.0:" ++ (decimal_int port ++ codes "\n") in
    if ltb_ℤ system.setsockopt (pos 0)
    then (hello ∷ codes "ERROR: setsockopt failed" ∷ [], exits exit_failure)
    else (if ltb_ℤ system.bind (pos 0)
        then (hello ∷ codes "ERROR: Socket binding failed" ∷ [], exits exit_failure)
        else (if ltb_ℤ system.listen (pos 0)
            then (hello ∷ codes "ERROR: Socket listening failed" ∷ [], exits exit_failure)
            else (
              hello ∷ codes "Multi-Chat created by Ciro Carandente & Giovanni Bruno for LSO\n" ∷ [],
              accepts_on system.socket port,
            )))

-- `main` up to its loop, by its arguments. With none at all it prints `argv[0]`, which is null.
unfoldable pub start_main : System → List (List ℕ) → Result Startup
start_main system [] = fault
start_main system (name ∷ text ∷ []) = do port ← atoi text; ok (listen_on system port)
start_main system (name ∷ others) =
    ok ((codes "Usage: " ++ (name ++ codes " <port>\n")) ∷ [], exits exit_failure)

-- The rounds of the loop, for the connections that `accept` returns.
unfoldable pub accept_all : List (ℤ × User) → Cmd (Unit {0})
accept_all [] = pure tt
accept_all ((connfd, raw) ∷ connections) =
    let rest = accept_all connections in (do accept_connection connfd raw; rest)
