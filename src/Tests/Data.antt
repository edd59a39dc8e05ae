-- ===== src/Tests/Data.antt =====
-- Buffers, clients, rooms and states for the examples.
use lso_server.Base.{
  ok, ℕ, zero, suc, ◌≡◌, refl, ap, sym, ◌∙◌, inl, inr, Bool, true, false, ◌&&◌, List, [], ◌∷◌, ◌++◌,
  some, none, ℤ, pos, ◌+ℤ◌, arith, ltb, length, append-nil, replicate,
}
use lso_server.Memory.Laws.{init}
use lso_server.Buffer.Holds.{exactly, exactly-Holds}
use lso_server.Reader.{Reader}
use lso_server.Reader.Remains.{Remains}
use lso_server.Writer.{Writer}
use lso_server.Writer.Holds.{Wrote}
use lso_server.Writer.Strings.{IsBytes}
use lso_server.Message.{Message}
use lso_server.Message.Wire.{Carries}
use lso_server.World.{null, addr, string, Client, Room, World, malloc_client, object, codes}
use lso_server.ClientPool.{
  client_pool_add, client_pool_is_full, get_client_pool_empty_index, empty_index,
}
use lso_server.ClientPool.Lookup.{Slots, Misses, is_sought}
use lso_server.Client.{client_create}
use lso_server.Server.{accept_connection, start}
use lso_server.Invariant.{Inv}
use lso_server.Invariant.Members.{admitted}
use lso_server.Invariant.Steps.{Reachable, starts, goes_on, accepts, nowhere, Reachable-Inv}
use lso_server.Tests.Run.{willing, blank}
pub use lso_server.Memory.Laws.{are_positive-NonZero}

abbrev is_bytes : List ℕ → Bool
is_bytes [] = true
is_bytes (b ∷ bs) = ltb b 256 && is_bytes bs

pub is_bytes-IsBytes : (bs : List ℕ) → is_bytes bs ≡ true → IsBytes bs
is_bytes-IsBytes [] h = tt
is_bytes-IsBytes (b ∷ bs) h = (ground arith, is_bytes-IsBytes bs (ground arith))

-- A reader at the start of `bs`.
abbrev pub reading : List ℕ → Reader
reading bs = record { position = 0; buffer = exactly bs }

pub reading-Remains : (bs : List ℕ) → is_bytes bs ≡ true → Remains (reading bs) bs
reading-Remains bs h = record {
  front = [];
  rest = [];
  cells = sym (append-nil (init bs));
  at = refl;
  count = ap pos (omega arith);
  bytes = is_bytes-IsBytes bs h;
}

-- A writer that has written `bs` into a block of that size.
abbrev pub written : List ℕ → Writer
written bs = record { position = length bs; buffer = exactly bs }

pub written-Wrote : (bs : List ℕ) → Wrote (written bs) bs
written-Wrote bs = record { spare = 0; holds = exactly-Holds bs; position = refl; offset = refl }

abbrev pub carrying : ℤ → List ℕ → Message
carrying tag bs = record { tag = tag; buffer = exactly bs }

pub carrying-Carries : (tag : ℤ) (bs : List ℕ) → Carries (carrying tag bs) tag bs
carrying-Carries tag bs = record { tagged = refl; spare = 0; holds = exactly-Holds bs }

-- `ann` owns the room `den`, and `bob` is in no room.
abbrev pub ann : Client
ann = record {
  room = addr 0;
  sockfd = pos 4;
  uid = 0;
  user = record { id = pos 7; name = string (init (codes "ann") ++ some 0 ∷ []) };
}

abbrev pub bob : Client
bob = record {
  room = null;
  sockfd = pos 5;
  uid = 1;
  user = record { id = pos 8; name = string (init (codes "bob") ++ some 0 ∷ []) };
}

abbrev pub den : Room
den = record {
  clients = addr 0 ∷ replicate 29 null;
  id = 0;
  clients_count = pos 1;
  name = init (codes "den") ++ some 0 ∷ [];
  owner = addr 0;
}

abbrev pub town : World
town = record {
  outside = willing;
  clients = some ann ∷ some bob ∷ [];
  rooms = some den ∷ [];
  g_rooms = addr 0 ∷ null ∷ [];
  pool = record { clients = addr 0 ∷ null ∷ addr 1 ∷ replicate 7 null; size = pos 2 };
  counter_client = 2;
  counter_room = 1;
  sent = [];
  queries = [];
}

pub den-Slots : Slots town den.clients
den-Slots zero q e = inr (ann, ap (object town.clients) (sym (some_eq e)))
  where
    some_eq : some (addr 0) ≡ some q → addr 0 ≡ q
    some_eq e = cc
den-Slots (suc i) q e = inl (nowhere i 29 q e)

pub pool-Slots : Slots town town.pool.clients
pool-Slots zero q e = inr (ann, ap (object town.clients) (sym (some_eq e)))
  where
    some_eq : some (addr 0) ≡ some q → addr 0 ≡ q
    some_eq e = cc
pool-Slots (suc zero) q e = inl (some_eq e)
  where
    some_eq : some null ≡ some q → q ≡ null
    some_eq e = cc
pool-Slots (suc (suc zero)) q e = inr (bob, ap (object town.clients) (sym (some_eq e)))
  where
    some_eq : some (addr 1) ≡ some q → addr 1 ≡ q
    some_eq e = cc
pool-Slots (suc (suc (suc i))) q e = inl (nowhere i 7 q e)

-- Bob stands in neither of the first two slots.
pub bob-Misses : Misses town (pos 8) town.pool.clients 2
bob-Misses zero q c h e live =
    ap (is_sought (pos 8)) (sym (some_eq (ap (object town.clients) (slot_eq e) ∙ live)))
  where
    slot_eq : some (addr 0) ≡ some q → addr 0 ≡ q
    slot_eq e = cc

    some_eq : some ann ≡ some c → ann ≡ c
    some_eq e = cc
bob-Misses (suc zero) q c h e live = none_some (ap (object town.clients) (slot_eq e) ∙ live)
  where
    slot_eq : some null ≡ some q → null ≡ q
    slot_eq e = cc

    none_some : none ≡ some c → is_sought (pos 8) c ≡ false
    none_some e = cc
bob-Misses (suc (suc i)) q c h e live = absurd (omega arith)

-- A client that was just accepted.
abbrev pub newcomer : ℕ → ℕ → Client
newcomer fd uid = record { room = null; sockfd = pos fd; uid = uid; user = blank }

-- The states after one and two connections.
abbrev pub one : World
one = admitted (start willing) (pos 4) blank 0

abbrev pub two : World
two = admitted one (pos 5) blank 1

pub one-accepted : accept_connection (pos 4) blank (start willing) ≡ ok (tt, one)
unfolding accept_connection client_pool_is_full client_create malloc_client client_pool_add
    get_client_pool_empty_index empty_index
one-accepted = refl

pub two-accepted : accept_connection (pos 5) blank one ≡ ok (tt, two)
unfolding accept_connection client_pool_is_full client_create malloc_client client_pool_add
    get_client_pool_empty_index empty_index ◌+ℤ◌
two-accepted = refl

one-Reachable : Reachable willing one
one-Reachable =
    goes_on (start willing) one starts (accepts (start willing) one (pos 4) blank one-accepted)

pub two-Reachable : Reachable willing two
two-Reachable = goes_on one two one-Reachable (accepts one two (pos 5) blank two-accepted)

pub two-Inv : Inv two
two-Inv = Reachable-Inv willing two two-Reachable
