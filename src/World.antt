-- ===== src/World.antt =====
-- The state that the threads of the server share, and the commands over it: the heap of client_t
-- and room_t objects, the globals of room.c, client.c and client_pool.c, and what lies outside.
pub mod Laws
pub mod Heap
use Prim.Native.Char.{code}
use Prim.Native.String.{String}
use lso_server.Base.{
  ℕ, zero, suc, ◌+◌, Bool, true, false, List, [], ◌∷◌, ◌++◌, Option, none, some, ℤ, Result, ok,
  fault, exited, length, get_elem?, set,
}
use lso_server.Memory.{Block}

-- `wild` is what a pointer holds that was never assigned.
pub data Pointer : Type 0 where
  null wild : Pointer
  addr : ℕ → Pointer

-- A `char` pointer, with the block from its target on.
pub data CString : Type 0 where
  no_string wild_string : CString
  string : Block → CString

pub record User : Type 0 where
  pub id : ℤ
  pub name : CString

-- `address`, `thread` and `mutex` are left out.
pub record Client : Type 0 where
  pub room : Pointer
  pub sockfd : ℤ
  pub uid : ℕ
  pub user : User

-- `id` comes from a counter; the `mutex` is left out.
pub record Room : Type 0 where
  pub clients : List Pointer
  pub id : ℕ
  pub clients_count : ℤ
  pub name : Block
  pub owner : Pointer

pub record Pool : Type 0 where
  pub clients : List Pointer
  pub size : ℤ

abbrev pub Query : Type 0
Query = List ℕ

-- The two columns of a row that `mysql_fetch_row` returns, as C strings.
pub record Row : Type 0 where
  pub id_text : Block
  pub username : Block

-- What a query returns: it fails, or it succeeds, and then `mysql_store_result` has rows, or it
-- has no result and returns NULL.
pub data Reply : Type 0 where
  failed : Reply
  unstored : Reply
  rows : List Row → Reply

pub record Packet : Type 0 where
  pub sockfd : ℤ
  pub bytes : List ℕ

-- The MySQL server and the sockets, by what they were asked before.
pub record Outside : Type 0 where
  pub connects : List Query → Bool
  pub answers : List Query → Query → Reply
  pub sends : List Packet → Packet → Bool

-- `clients` and `rooms` are the heap: `none` is an object that was freed. Addresses are not
-- used again.
pub record World : Type 0 where
  pub outside : Outside
  pub clients : List (Option Client)
  pub rooms : List (Option Room)
  pub g_rooms : List Pointer
  pub pool : Pool
  pub counter_client : ℕ
  pub counter_room : ℕ
  pub sent : List Packet
  pub queries : List Query

abbrev pub Cmd : Type 0 → Type 0
Cmd A = World → Result (A × World)

abbrev pub pure : {A : Type 0} → A → Cmd A
pure a w = ok (a, w)

abbrev pub undefined : {A : Type 0} → Cmd A
undefined w = fault

module _ {A B : Type 0} where
  abbrev pub and_then : Result (A × World) → (A → Cmd B) → Result (B × World)
  and_then (ok (a, w)) k = k a w
  and_then fault k = fault
  and_then exited k = exited

  infixl 5 ◌>>=◌ ◌>>◌
  abbrev pub ◌>>=◌ : Cmd A → (A → Cmd B) → Cmd B
  m >>= k = λ w. and_then (m w) k

  abbrev pub ◌>>◌ : Cmd A → Cmd B → Cmd B
  m >> n = m >>= λ _. n

module _ {A : Type 0} where
  abbrev pub with_world : World → Result A → Result (A × World)
  with_world w (ok a) = ok (a, w)
  with_world w fault = fault
  with_world w exited = exited

  -- A run that does not touch the shared state.
  abbrev pub lift : Result A → Cmd A
  lift r w = with_world w r

abbrev pub gets : {A : Type 0} → (World → A) → Cmd A
gets f w = ok (f w, w)

abbrev pub modify : (World → World) → Cmd (Unit {0})
modify f w = ok (tt, f w)

-- What an address holds: nothing beyond the heap, and nothing that was freed.
abbrev pub join {ℓ} : {A : Type ℓ} → Option (Option A) → Option A
join none = none
join (some o) = o

abbrev pub object : {A : Type 0} → List (Option A) → Pointer → Option A
object heap null = none
object heap wild = none
object heap (addr a) = join (get_elem? heap a)

abbrev pub put_object : {A : Type 0} → List (Option A) → Pointer → Option A → List (Option A)
put_object heap null o = heap
put_object heap wild o = heap
put_object heap (addr a) o = set heap a o

-- `*p`: a fault at a pointer that leads to no object.
unfoldable pub get_client : Pointer → Cmd Client
get_client p w = elim (object w.clients p) [ none ↦ fault | some c ↦ ok (c, w) ]

unfoldable pub set_client : Pointer → Client → Cmd (Unit {0})
set_client p c = do
  _ ← get_client p
  modify λ w. record w { clients = put_object w.clients p (some c) }

unfoldable pub free_client : Pointer → Cmd (Unit {0})
free_client p = do _ ← get_client p; modify λ w. record w { clients = put_object w.clients p none }

unfoldable pub malloc_client : Client → Cmd Pointer
malloc_client c w = ok (addr (length w.clients), record w { clients = w.clients ++ some c ∷ [] })

unfoldable pub get_room : Pointer → Cmd Room
get_room p w = elim (object w.rooms p) [ none ↦ fault | some r ↦ ok (r, w) ]

unfoldable pub set_room : Pointer → Room → Cmd (Unit {0})
set_room p r = do _ ← get_room p; modify λ w. record w { rooms = put_object w.rooms p (some r) }

unfoldable pub free_room : Pointer → Cmd (Unit {0})
free_room p = do _ ← get_room p; modify λ w. record w { rooms = put_object w.rooms p none }

unfoldable pub malloc_room : Room → Cmd Pointer
malloc_room r w = ok (addr (length w.rooms), record w { rooms = w.rooms ++ some r ∷ [] })

abbrev pub is_null : Pointer → Bool
is_null null = true
is_null wild = false
is_null (addr a) = false

-- The block that a `char` pointer leads to.
abbrev pub deref : CString → Result Block
deref no_string = fault
deref wild_string = fault
deref (string m) = ok m

abbrev pub is_no_string : CString → Bool
is_no_string no_string = true
is_no_string wild_string = false
is_no_string (string m) = false

-- The bytes of a literal.
abbrev pub codes : String → List ℕ
codes String.[] = []
codes (String.◌∷◌ c s) = code c ∷ codes s
