-- ===== src/Soundness.antt =====
-- States in which the rooms and their members fit together (server/client.c, server/room.c), and
-- what the database is relied on for (server/database.c): enough that no pointer that the handlers
-- follow dangles.
pub mod Heaps
pub mod Joining
pub mod Leaving
pub mod Connecting
pub mod Making
pub mod Closing
pub mod Guests
pub mod Visits
pub mod Outcomes
pub mod Polite
pub mod Listing
pub mod Asking
pub mod Searching
pub mod Entering
pub mod Admitting
pub mod Talking
pub mod Parting
pub mod Accounts
pub mod Serving
pub mod Accepting
pub mod Disconnecting
pub mod Threads
pub mod Runs
use lso_server.Base.{ℕ, ◌≡◌, ◌⊎◌, List, ◌∷◌, ◌++◌, Option, some, ℤ, true, Bool, ok, get_elem?}
use lso_server.Memory.{Block, c_text}
use lso_server.Memory.Laws.{init, NonZero}
use lso_server.Writer.Strings.{IsBytes}
use lso_server.World.{
  Pointer, null, addr, CString, no_string, wild_string, string, Client, Room, Query, Row, Reply,
  failed, unstored, rows, Outside, World, object,
}
use lso_server.Database.{atoi, select_query}
use lso_server.Invariant.{Inv}

-- A block that starts with a C string.
pub record IsText (m : Block) : Type 0 where
  pub chars : List ℕ
  pub rest : Block
  pub split : m ≡ init chars ++ some 0 ∷ rest
  pub text : NonZero chars
  pub bytes : IsBytes chars

-- The name of a user that is signed in, and one of any user: there may be none yet.
abbrev pub IsSigned : CString → Type 0
IsSigned no_string = ⊥
IsSigned wild_string = ⊥
IsSigned (string m) = IsText m

abbrev pub IsName : CString → Type 0
IsName no_string = Unit
IsName wild_string = ⊥
IsName (string m) = IsText m

-- The owner of a room has a slot in it, no client has two, and the room has a name.
pub record IsHouse (r : Room) : Type 0 where
  pub owner : ℕ
  pub seat : ℕ
  pub owned : r.owner ≡ addr owner
  pub seated : get_elem? r.clients seat ≡ some (addr owner)
  pub once :
      (i j a : ℕ)
      → get_elem? r.clients i ≡ some (addr a)
      → get_elem? r.clients j ≡ some (addr a)
      → i ≡ j
  pub titled : IsText r.name

-- The client at `addr a` is signed in and in the room at `addr b`.
pub record IsMember (clients : List (Option Client)) (b a : ℕ) : Type 0 where
  pub client : Client
  pub live : object clients (addr a) ≡ some client
  pub inside : client.room ≡ addr b
  pub signed : IsSigned client.user.name

-- Where a client stands: in no room, or in a slot of the room that it is in.
abbrev pub Stands : List (Option Room) → ℕ → Client → Type 0
Stands rooms a c =
    (c.room ≡ null)
    ⊎ ((b : ℕ) × (r : Room) × (i : ℕ) × (c.room ≡ addr b)
        × (object rooms (addr b) ≡ some r)
        × (get_elem? r.clients i ≡ some (addr a)))

-- The slots of each room lead to the clients that are in it, and to no others.
pub record Housed (clients : List (Option Client)) (rooms : List (Option Room)) : Type 0 where
  pub named : (a : ℕ) (c : Client) → object clients (addr a) ≡ some c → IsName c.user.name
  pub stands : (a : ℕ) (c : Client) → object clients (addr a) ≡ some c → Stands rooms a c
  pub house : (b : ℕ) (r : Room) → object rooms (addr b) ≡ some r → IsHouse r
  pub member :
      (b : ℕ) (r : Room) (i : ℕ) (q : Pointer)
      → object rooms (addr b) ≡ some r
      → get_elem? r.clients i ≡ some q
      → (q ≡ null) ⊎ ((a : ℕ) × (q ≡ addr a) × IsMember clients b a)

-- A row of the table of users: the id is the text of an `int`, and the name is a C string.
pub record IsRow (r : Row) : Type 0 where
  pub digits : List ℕ
  pub id : ℤ
  pub spelled : c_text r.id_text ≡ ok digits
  pub number : atoi digits ≡ ok id
  pub username : IsText r.username

abbrev pub HasRow : Reply → Type 0
HasRow failed = Unit
HasRow unstored = ⊥
HasRow (rows rs) = (r : Row) (others : List Row) → rs ≡ r ∷ others → IsRow r

-- The database can always be reached, and answers a sign-in with such rows.
pub record IsServed (outside : Outside) : Type 0 where
  pub connects : (before : List Query) → outside.connects before ≡ true
  pub answers :
      (before : List Query) (user pass : List ℕ)
      → HasRow (outside.answers before (select_query user pass))

-- Each client has a slot of the pool, too.
pub record Sound (w : World) : Type 0 where
  pub inv : Inv w
  pub served : IsServed w.outside
  pub housed : Housed w.clients w.rooms
  pub pooled :
      (a : ℕ) (c : Client)
      → object w.clients (addr a) ≡ some c
      → (j : ℕ) × (get_elem? w.pool.clients j ≡ some (addr a))
