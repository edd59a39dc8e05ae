-- ===== src/Tests/Run.antt =====
-- A run of the server with two clients.
use lso_server.Base.{
  ℕ, Bool, true, false, List, [], ◌∷◌, ◌++◌, Option, none, some, ℤ, pos, Result, length,
}
use lso_server.Memory.Laws.{init}
use lso_server.Utils.RoundTrip.{int16_bytes, int32_bytes}
use lso_server.Writer.Strings.{string_bytes}
use lso_server.World.{
  addr, User, no_string, Outside, World, Cmd, Query, Reply, rows, ◌>>◌, codes, Packet,
}
use lso_server.Server.{start, accept_connection, receive}

-- The first query finds the user `ann`, the second `bob`.
abbrev pub answer : List Query → Query → Reply
answer [] q = rows (
    record {
      id_text = init (codes "7") ++ some 0 ∷ [];
      username = init (codes "ann") ++ some 0 ∷ [];
    }
    ∷ [])
answer (_ ∷ _) q = rows (
    record {
      id_text = init (codes "8") ++ some 0 ∷ [];
      username = init (codes "bob") ++ some 0 ∷ [];
    }
    ∷ [])

abbrev pub willing : Outside
willing = record { connects = λ _. true; answers = answer; sends = λ _ _. true }

abbrev pub blank : User
blank = record { id = pos 0; name = no_string }

abbrev said : ℕ → List ℕ → Cmd (Unit {0})
said p bytes = receive (addr p) (init bytes) (length bytes)

abbrev sign_in : ℕ → List ℕ → Cmd (Unit {0})
sign_in p name = said p (int16_bytes (pos 30) ++ (string_bytes name ++ string_bytes (codes "pw")))

scenario : Cmd (Unit {0})
scenario = do
  accept_connection (pos 4) blank
  accept_connection (pos 5) blank
  sign_in 0 (codes "ann")
  sign_in 1 (codes "bob")
  said 0 (int16_bytes (pos 40) ++ string_bytes (codes "den"))
  said 1 (int16_bytes (pos 7) ++ int32_bytes (pos 0))
  said 0 (int16_bytes (pos 8) ++ (int32_bytes (pos 8) ++ int32_bytes (pos 0)))
  said 1 (int16_bytes (pos 12) ++ string_bytes (codes "hi"))

sent_by : Result (Unit {0} × World) → List Packet
sent_by (lso_server.Base.ok (_, w)) = w.sent
sent_by _ = []

out : List Packet
out = sent_by (scenario (start willing))
