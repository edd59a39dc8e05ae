-- ===== src/Roster/Steps.antt =====
-- The steps of the server as moves of the bag of clients.
use lso_server.Base.{
  ℕ, ◌≡◌, ◌≢◌, refl, ap, sym, subst, ◌∙◌, ◌⊎◌, inl, inr, some, arith, length, get_elem?, ℤ, ok, set,
  length-set, Result,
}
use mathlib.Core.Quot
use lso_server.Memory.{Block}
use lso_server.World.{Pointer, null, wild, addr, User, Client, Pool, Outside, World, object}
use lso_server.World.Laws.{Ends}
use lso_server.Server.{accept_connection, receive, disconnect}
use lso_server.Invariant.{Inv, occupied}
use lso_server.Invariant.Slots.{occupied-set_in, occupied-le-length}
use lso_server.Invariant.Keeps.{Kept, Kept-self}
use lso_server.Invariant.Members.{Accepted, accept_connection-Accepted, pool-lt}
use lso_server.Invariant.Removal.{removed}
use lso_server.Invariant.Handlers.{receive-Stable}
use lso_server.Invariant.Threads.{Departed, disconnect-Departed}
use lso_server.Invariant.Steps.{Step, accepts, receives, disconnects, Reachable, Reachable-Inv}
use lso_server.Roster.{put, size, occurrences, Event, connects, speaks, hangs_up, Moves}
use lso_server.Roster.Slots.{
  members, connected, bag-set_in, bag-set_out, length-members, count-members,
}

abbrev pub event : {w w' : World} → Step w w' → Event
event (accepts w w' connfd raw e) = connects
event (receives w w' client m size e) = speaks
event (disconnects w w' client e) = hangs_up client

connected-size : (w : World) → Inv w → size (connected w) ≡ occupied w.pool.clients
unfolding size
connected-size w v = length-members w.pool.clients λ i e. wildless (v.pool.member i wild e)
  where
    wildless :
        (wild ≡ null)
          ⊎ ((a : ℕ) × (c : Client) × (wild ≡ addr a) × (object w.clients (addr a) ≡ some c))
        → ⊥
    wildless (inl e) = cc
    wildless (inr (a, c, e, f)) = cc

connected-none :
    (w : World) (a : ℕ)
    → ((i : ℕ) → get_elem? w.pool.clients i ≢ some (addr a))
    → occurrences a (connected w) ≡ 0
unfolding occurrences
connected-none w a h = count-members w.pool.clients a h

accepts-Moves :
    (w w' : World) (connfd : ℤ) (raw : User)
    → Inv w
    → accept_connection connfd raw w ≡ ok (tt, w')
    → Moves connects (connected w) (connected w')
accepts-Moves w w' connfd raw v e = cases (accept_connection-Accepted w connfd raw v)
  where
    same : {x : World} → accept_connection connfd raw w ≡ ok (tt, x) → w' ≡ x
    same f = ok_state (sym e ∙ f)
      where
        ok_state :
            {y z : World} → Path (Result (Unit {0} × World)) (ok (tt, y)) (ok (tt, z)) → y ≡ z
        ok_state h = cc

    cases : Accepted w connfd raw → Moves connects (connected w) (connected w')
    cases (inl (full, f)) = inl (connected-size w v ∙ full, ap connected (same f))
    cases (inr (j, empty, f)) = inr (
      length w.clients,
      omega (
        arith,
        connected-size w v,
        occupied-set_in w.pool.clients j (addr (length w.clients)) empty refl,
        occupied-le-length (set w.pool.clients j (addr (length w.clients))),
        length-set w.pool.clients j (addr (length w.clients)),
        v.pool.slots,
      ),
      connected-none w (length w.clients)
          (λ i at. absurd (omega (arith, pool-lt w.pool w.clients v.pool i (length w.clients) at))),
      ap connected (same f) ∙ bag-set_in w.pool.clients j (length w.clients) empty,
    )

receives-Moves :
    (w w' : World) (client : Pointer) (m : Block) (n : ℕ)
    → Inv w
    → receive client m n w ≡ ok (tt, w')
    → connected w' ≡ connected w
receives-Moves w w' client m n v e =
    let kept : Kept w w' =
      subst (Ends (λ _. Kept w)) e ((receive-Stable client m n).runs w w (Kept-self w v)) in
    ap (λ (p : Pool). Quot.mk (members p.clients)) kept.pool

disconnects-Moves :
    (w w' : World) (client : Pointer)
    → Inv w
    → disconnect client w ≡ ok (tt, w')
    → Moves (hangs_up client) (connected w) (connected w')
disconnects-Moves w w' client v e =
    moved (subst (Ends (λ _. Departed client w)) e (disconnect-Departed client w v))
  where
    moved : Departed client w w' → Moves (hangs_up client) (connected w) (connected w')
    moved (a, f, (gone, freed)) = shaped gone.shape
      where
        shaped :
            (w'.pool ≡ w.pool)
              ⊎ ((j : ℕ) × (get_elem? w.pool.clients j ≡ some (addr a))
                  × (w'.pool ≡ (removed w j).pool))
            → Moves (hangs_up client) (connected w) (connected w')
        shaped (inl same) = inr (
          a,
          f,
          connected-none w a
              λ i at. gone.outsider i (ap (λ (p : Pool). get_elem? p.clients i) same ∙ at),
          ap (λ (p : Pool). Quot.mk (members p.clients)) same,
        )
        shaped (inr (j, at, g)) = inl (
          a,
          f,
          connected-none w' a gone.outsider,
          bag-set_out w.pool.clients j a at
              ∙ ap (λ (p : Pool). put a (Quot.mk (members p.clients))) (sym g),
        )

-- Every step from a reachable state moves the bag of connected clients, which forgets the slots,
-- as its event allows: accepting a connection turns it away at 10 clients and otherwise adds one
-- client that was not there; handling bytes changes nothing; a client that disconnects is taken
-- out, if it was there, and is not there afterwards.
pub Step-Moves :
    (outside : Outside) (w w' : World)
    → Reachable outside w
    → (step : Step w w') → Moves (event step) (connected w) (connected w')
Step-Moves outside w w' reached (accepts _ _ connfd raw e) =
    accepts-Moves w w' connfd raw (Reachable-Inv outside w reached) e
Step-Moves outside w w' reached (receives _ _ client m n e) =
    receives-Moves w w' client m n (Reachable-Inv outside w reached) e
Step-Moves outside w w' reached (disconnects _ _ client e) =
    disconnects-Moves w w' client (Reachable-Inv outside w reached) e
