-- ===== src/Soundness/Runs.antt =====
-- Whole runs of the server (server/main.c, `client_handler` of server/client.c): connections,
-- messages and disconnections, in any order.
use lso_server.Base.{ℕ, ◌≡◌, refl, List, [], ◌∷◌, ◌++◌, some, ℤ, ok, signed, length}
use lso_server.Memory.{Block}
use lso_server.Memory.Laws.{init}
use lso_server.Utils.Decode.{pattern16}
use lso_server.Writer.Strings.{IsBytes}
use lso_server.World.{addr, User, Client, Outside, World, Cmd, object, pure, ◌>>◌}
use lso_server.Server.{accept_connection, receive, disconnect, start}
use lso_server.Invariant.Steps.{start-Inv}
use lso_server.Soundness.{IsName, IsServed, Sound}
use lso_server.Soundness.Guests.{Hotel, hotel, Change, Stays, Leaves, Does}
use lso_server.Soundness.Accepting.{accept_connection-Does}
use lso_server.Soundness.Disconnecting.{disconnect-Does}
use lso_server.Soundness.Polite.{IsPolite}
use lso_server.Soundness.Serving.{receive-Does}

pub start-Sound : (outside : Outside) → IsServed outside → Sound (start outside)
start-Sound outside served = record {
  inv = start-Inv outside;
  served = served;
  housed = record {
    named = λ a c e. cc;
    stands = λ a c e. cc;
    house = λ b r e. cc;
    member = λ b r i q e at. cc;
  };
  pooled = λ a c e. cc;
}

-- What happens outside: a connection, with what `malloc` left in its client; one `read` of a
-- client, before the rest of its buffer; or the end of its connection.
pub data Event : Type 0 where
  arrives : (connfd : ℤ) (raw : User) → Event
  writes : (a b0 b1 : ℕ) (bs : List ℕ) (rest : Block) → Event
  hangs_up : (a : ℕ) → Event

abbrev pub perform : Event → Cmd (Unit {0})
perform (arrives connfd raw) = accept_connection connfd raw
perform (writes a b0 b1 bs rest) =
    receive (addr a) (init (b0 ∷ b1 ∷ bs) ++ rest) (length (b0 ∷ b1 ∷ bs))
perform (hangs_up a) = disconnect (addr a)

abbrev pub perform_all : List Event → Cmd (Unit {0})
perform_all [] = pure tt
perform_all (e ∷ es) = perform e >> perform_all es

-- Clients are there when they write or hang up, what they write is polite, and `malloc` left no
-- wild name.
abbrev pub IsWelcome : World → Event → Type 0
IsWelcome w (arrives connfd raw) = IsName raw.name
IsWelcome w (writes a b0 b1 bs rest) =
    (c : Client) × (object w.clients (addr a) ≡ some c)
    × IsBytes (b0 ∷ b1 ∷ bs)
    × IsPolite w c (signed 16 (pattern16 b0 b1)) bs
IsWelcome w (hangs_up a) = (c : Client) × (object w.clients (addr a) ≡ some c)

pub data AreWelcome : World → List Event → Type 0 where
  done : (w : World) → AreWelcome w []
  next :
      (w : World) (e : Event) (es : List Event)
      → IsWelcome w e
      → ((w' : World) → perform e w ≡ ok (tt, w') → AreWelcome w' es)
      → AreWelcome w (e ∷ es)

-- What an event may do to the rooms, and what one after the other may do.
abbrev pub Outcome : Event → Hotel → Hotel → Type 0
Outcome (arrives connfd raw) h h' = Stays h h'
Outcome (writes a b0 b1 bs rest) h h' = Change a (signed 16 (pattern16 b0 b1)) h h'
Outcome (hangs_up a) h h' = Leaves a h h'

abbrev pub Course : List Event → Hotel → Hotel → Type 0
Course [] h h' = Stays h h'
Course (e ∷ es) h h' = (between : Hotel) × Outcome e h between × Course es between h'

perform-Does : (w : World) (e : Event) → Sound w → IsWelcome w e → Does (Outcome e) (perform e) w
perform-Does w (arrives connfd raw) v name = accept_connection-Does w connfd raw v name
perform-Does w (writes a b0 b1 bs rest) v (c, live, bytes, polite) =
    receive-Does w v a c live b0 b1 bs rest bytes polite
perform-Does w (hangs_up a) v (c, live) =
    let (w', runs, v', change, gone) = disconnect-Does w a c v live in (w', runs, v', change)

perform_all-Does :
    (w : World) (es : List Event) → Sound w → AreWelcome w es → Does (Course es) (perform_all es) w
perform_all-Does w es v (done _) = (w, refl, v, λ k. refl)
perform_all-Does w es v (next _ e later welcome then_welcome) =
    let (w', runs, v', change) = perform-Does w e v welcome in
    let (w'', runs', v'', course) = perform_all-Does w' later v' (then_welcome w' runs) in
    (w'', rw runs runs', v'', (hotel w', change, course))

-- From the start of the server, any run of connections, messages and disconnections, in any order,
-- ends without undefined behaviour and in a sound state, in which all owners, members and slots of
-- rooms lead to live clients, and each event does to the rooms, seen as bags of guests with an
-- owner, only what the abstract view allows: a connection nothing, a message what its tag allows,
-- and the end of a client only that it leaves its room or that the room is gone; if each message
-- and each disconnection comes from a live client, each message is polite in the state that it
-- meets, malloc leaves no wild pointer as the name of a new client, and the database can be
-- reached and answers a sign-in with rows that are as its table has them.
pub perform_all-start-Does :
    (outside : Outside) (es : List Event)
    → IsServed outside
    → AreWelcome (start outside) es
    → Does (Course es) (perform_all es) (start outside)
perform_all-start-Does outside es served welcome =
    perform_all-Does (start outside) es (start-Sound outside served) welcome
