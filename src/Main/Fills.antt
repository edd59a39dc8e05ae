-- ===== src/Main/Fills.antt =====
-- The loop of server/main.c over any number of connections.
use lso_server.Base.{
  ℕ, suc, ◌+◌, ◌≤◌, ◌≡◌, refl, inl, inr, List, [], ◌∷◌, ℤ, ok, arith, length, set, length-set, leb,
  if◌then◌else◌,
}
use lso_server.World.{addr, User, World}
use lso_server.ClientPool.{max_clients}
use lso_server.Server.{accept_connection}
use lso_server.Invariant.{Inv, occupied}
use lso_server.Invariant.Slots.{occupied-set_in, occupied-le-length}
use lso_server.Invariant.Members.{Accepted, admitted, accept_connection-Accepted, Inv-admitted}
use lso_server.Main.{accept_all}

-- `n` clients and `k` more, but at most as many as fit.
abbrev capped : ℕ → ℕ → ℕ
capped n k = if leb (n + k) max_clients then n + k else max_clients

-- The state after `k` connections.
pub record Filled (w : World) (k : ℕ) (w' : World) : Type 0 where
  pub inv : Inv w'
  pub clients : occupied w'.pool.clients ≡ capped (occupied w.pool.clients) k
  pub counter :
      w'.counter_client + occupied w.pool.clients ≡ w.counter_client + occupied w'.pool.clients

accept-Filled :
    (w : World) (connfd : ℤ) (raw : User)
    → Inv w
    → (w' : World) × (accept_connection connfd raw w ≡ ok (tt, w')) × Filled w 1 w'
accept-Filled w connfd raw v = cases (accept_connection-Accepted w connfd raw v)
  where
    cases :
        Accepted w connfd raw
        → (w' : World) × (accept_connection connfd raw w ≡ ok (tt, w')) × Filled w 1 w'
    cases (inl (full, e)) = (w, e, record { inv = v; clients = ground arith; counter = refl })
    cases (inr (j, empty, e)) =
        let q = addr (length w.clients) in
        let more = occupied-set_in w.pool.clients j q empty refl in
        let few : occupied (set w.pool.clients j q) ≤ 10 = omega (
          arith,
          occupied-le-length (set w.pool.clients j q),
          length-set w.pool.clients j q,
          v.pool.slots,
        ) in
        (
          admitted w connfd raw j,
          e,
          record {
            inv = Inv-admitted w connfd raw j v empty;
            clients = ground (arith, more, few);
            counter = omega (arith, more);
          },
        )

Filled-more : (w w' w'' : World) (k : ℕ) → Filled w 1 w' → Filled w' k w'' → Filled w (suc k) w''
Filled-more w w' w'' k h h' = record {
  inv = h'.inv;
  clients = ground (arith, h.clients, h'.clients);
  counter = omega (arith, h.counter, h'.counter);
}

-- From a state that satisfies the invariant, the loop gets through any list of connections: it
-- returns, the invariant holds again, there are as many clients more as connections, but 10 at
-- most, and the counter of uids grows by as many as got in.
pub accept_all-Filled :
    (w : World) (connections : List (ℤ × User))
    → Inv w
    → (w' : World) × (accept_all connections w ≡ ok (tt, w')) × Filled w (length connections) w'
unfolding accept_all
accept_all-Filled w [] v = (
  w,
  refl,
  record {
    inv = v;
    clients = ground (arith, occupied-le-length w.pool.clients, v.pool.slots);
    counter = refl;
  },
)
accept_all-Filled w ((connfd, raw) ∷ connections) v =
    let (w', e, h) = accept-Filled w connfd raw v in
    let (w'', e', h') = accept_all-Filled w' connections h.inv in
    (w'', rw e e', Filled-more w w' w'' (length connections) h h')
