-- ===== src/Invariant/Steps.antt =====
-- The states that the server reaches, from server/main.c on: one connection is accepted, one
-- `read` of one client is handled, or one client disconnects, in any order.
use lso_server.Base.{
  ℕ, zero, suc, ◌≡◌, ap, sym, subst, ◌∙◌, ◌⊎◌, inl, inr, some, ℤ, pos, arith, get_elem?, replicate,
  length-replicate, ok,
}
use lso_server.Memory.{Block}
use lso_server.World.{Pointer, null, addr, User, Client, Outside, World, Cmd, object}
use lso_server.World.Laws.{Ends}
use lso_server.ClientPool.{client_pool_get, max_clients}
use lso_server.ClientPool.Lookup.{IsFirst, client_pool_get-IsFirst}
use lso_server.Room.{max_rooms}
use lso_server.Server.{accept_connection, receive, disconnect, start}
use lso_server.Invariant.{Inv, occupied}
use lso_server.Invariant.Slots.{occupied-replicate, occupied-le-length}
use lso_server.Invariant.Members.{accept_connection-Keeps}
use lso_server.Invariant.Threads.{receive-Keeps, disconnect-Keeps}

-- What one thread does before another one goes on.
pub data Step : World → World → Type 0 where
  accepts :
      (w w' : World) (connfd : ℤ) (raw : User)
      → accept_connection connfd raw w ≡ ok (tt, w')
      → Step w w'
  receives :
      (w w' : World) (client : Pointer) (msg_buffer : Block) (size : ℕ)
      → receive client msg_buffer size w ≡ ok (tt, w')
      → Step w w'
  disconnects : (w w' : World) (client : Pointer) → disconnect client w ≡ ok (tt, w') → Step w w'

pub data Reachable (outside : Outside) : World → Type 0 where
  starts : Reachable outside (start outside)
  goes_on : (w w' : World) → Reachable outside w → Step w w' → Reachable outside w'

pub nowhere : (i n : ℕ) (q : Pointer) → get_elem? (replicate n null) i ≡ some q → q ≡ null
nowhere i zero q e = cc
nowhere zero (suc n) q e = some_eq e
  where
    some_eq : some null ≡ some q → q ≡ null
    some_eq e = cc
nowhere (suc i) (suc n) q e = nowhere i n q e

no_slot : (i n a : ℕ) → get_elem? (replicate n null) i ≡ some (addr a) → ⊥
no_slot i n a e = clash (nowhere i n (addr a) e)
  where
    clash : addr a ≡ null → ⊥
    clash h = cc

pub start-Inv : (outside : Outside) → Inv (start outside)
start-Inv outside = record {
  pool = record {
    slots = length-replicate max_clients null;
    counted = ap pos (sym (occupied-replicate max_clients));
    member = λ i q e. inl (nowhere i max_clients q e);
    distinct = λ i j a e f. absurd (no_slot i max_clients a e);
  };
  uids = record { below = λ a c e. cc; distinct = λ a b c d e f h. cc };
  table = record {
    size = length-replicate max_rooms null;
    room = λ a r e. cc;
    registered = λ a r e. cc;
    listed = λ i p e. inl (nowhere i max_rooms p e);
  };
}

returned : (m : Cmd (Unit {0})) (w w' : World) → Ends (λ _. Inv) (m w) → m w ≡ ok (tt, w') → Inv w'
returned m w w' h e = subst (Ends (λ _. Inv)) e h

-- Every state reached from the start by accepting connections, handling what clients send and
-- disconnecting clients, in any order and with any bytes, satisfies the invariant: the pool counts
-- its slots in use and each leads to a live client, no two to the same one; uids are distinct;
-- each room counts its members; the table of rooms lists exactly the live rooms, each at its id.
pub Reachable-Inv : (outside : Outside) (w : World) → Reachable outside w → Inv w
Reachable-Inv outside _ starts = start-Inv outside
Reachable-Inv outside _ (goes_on _ _ r (accepts w w' connfd raw e)) =
    returned (accept_connection connfd raw) w w'
      (accept_connection-Keeps connfd raw w (Reachable-Inv outside w r)) e
Reachable-Inv outside _ (goes_on _ _ r (receives w w' client m size e)) =
    returned (receive client m size) w w'
      (receive-Keeps client m size w (Reachable-Inv outside w r)) e
Reachable-Inv outside _ (goes_on _ _ r (disconnects w w' client e)) =
    returned (disconnect client) w w' (disconnect-Keeps client w (Reachable-Inv outside w r)) e

-- In every reachable state client_pool_get returns: the first client with a name and the id among
-- as many slots as clients are connected, or null if there is none.
pub Reachable-client_pool_get :
    (outside : Outside) (w : World) (id : ℤ)
    → Reachable outside w
    → (p : Pointer) × (client_pool_get id w ≡ ok (p, w))
      × IsFirst w id w.pool.clients (occupied w.pool.clients) p
Reachable-client_pool_get outside w id reached =
    client_pool_get-IsFirst w id (occupied w.pool.clients) (λ i q e. slot (v.pool.member i q e))
      v.pool.counted (occupied-le-length w.pool.clients)
      (omega (arith, occupied-le-length w.pool.clients, v.pool.slots))
  where
    v : Inv w
    v = Reachable-Inv outside w reached

    slot :
        {q : Pointer}
        → (q ≡ null)
          ⊎ ((a : ℕ) × (c : Client) × (q ≡ addr a) × (object w.clients (addr a) ≡ some c))
        → (q ≡ null) ⊎ ((c : Client) × (object w.clients q ≡ some c))
    slot (inl e) = inl e
    slot (inr (a, c, e, f)) = inr (c, ap (object w.clients) e ∙ f)
