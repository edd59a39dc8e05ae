-- ===== src/Server/Farewell.antt =====
-- The last line about a client (server/client.c, the end of `client_handler`), by its name.
use lso_server.Base.{ℕ, ◌≡◌, refl, List, ok}
use lso_server.Memory.{c_text}
use lso_server.World.{CString, no_string, wild_string, string, World}
use lso_server.Database.{text}
use lso_server.Server.{print_left}

-- There is no name, or it ends somewhere.
abbrev pub Printable : CString → Type 0
Printable no_string = Unit
Printable wild_string = ⊥
Printable (string m) = (cs : List ℕ) × (c_text m ≡ ok cs)

pub print_left-Printable : (s : CString) (w : World) → Printable s → print_left s w ≡ ok (tt, w)
unfolding print_left text
print_left-Printable no_string w h = refl
print_left-Printable wild_string w h = absurd h
print_left-Printable (string m) w (cs, e) = rw e refl
