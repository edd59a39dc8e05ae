-- ===== src/Tests/Threads.antt =====
-- Steps of the threads, and what they leave behind, in concrete states.
use lso_server.Base.{
  suc, ◌+◌, ℕ, ◌≡◌, refl, [], ◌∷◌, some, none, pos, ok, fault, true, get_elem?, replicate, arith,
}
use lso_server.World.{null, addr, World, object, ◌>>=◌, ◌>>◌, codes}
use lso_server.ClientPool.{client_pool_add}
use lso_server.Client.{client_create}
use lso_server.Server.{disconnect}
use lso_server.Server.LostUpdate.{remove_both, remove_both-miscounts}
use lso_server.Server.Race.{dangling, client_pool_add-disconnect}
use lso_server.Main.{accept_all}
use lso_server.Main.Fills.{Filled, accept_all-Filled}
use lso_server.Invariant.{occupied}
use lso_server.Invariant.Removal.{departed, disconnect-departed}
use lso_server.Invariant.Steps.{disconnects}
use lso_server.Handlers.{handle_request_rooms_tag}
use lso_server.Handlers.Accounts.{c_text-init}
use lso_server.Handlers.Orphans.{disconnect-orphans, handle_request_rooms_tag-orphan}
use lso_server.Roster.{Moves, hangs_up}
use lso_server.Roster.Slots.{connected}
use lso_server.Roster.Steps.{Step-Moves}
use lso_server.Tests.Run.{willing, blank}
use lso_server.Tests.Data.{
  is_bytes-IsBytes, are_positive-NonZero, bob, den, two, two-Reachable, two-Inv, town,
}
use lso_server.Tests.Manor.{ann_upstairs, attic, attic-Slots, manor, manor-Inv}

-- The second of two clients hangs up.
Step-Moves_example : Moves (hangs_up (addr 1)) (connected two) (connected (departed two 1 1))
Step-Moves_example = Step-Moves willing two (departed two 1 1) two-Reachable (
    disconnects two (departed two 1 1) (addr 1)
      (disconnect-departed two 1 1 two-Inv refl
        (record { room = null; sockfd = pos 5; uid = 1; user = blank }) refl refl tt).0)

-- Twelve more connections.
accept_all-Filled_example :
    (w : World) × (accept_all (replicate 12 (pos 6, blank)) two ≡ ok (tt, w)) × Filled two 12 w
accept_all-Filled_example = accept_all-Filled two (replicate 12 (pos 6, blank)) two-Inv

client_pool_add-disconnect_example :
    (j : ℕ) × (get_elem? two.pool.clients j ≡ some null)
    × ((client_create (pos 6) blank >>= λ client. disconnect client >> client_pool_add client) two
        ≡ ok (true, dangling two (pos 6) blank j))
    × (get_elem? (dangling two (pos 6) blank j).pool.clients j ≡ some (addr 2))
    × (object (dangling two (pos 6) blank j).clients (addr 2) ≡ none)
client_pool_add-disconnect_example =
    client_pool_add-disconnect two (pos 6) blank two-Inv (λ e. absurd (omega arith)) tt

-- Both clients hang up at the same time.
remove_both-miscounts_example :
    (w : World) × (remove_both 0 1 two ≡ ok (tt, w))
    × (w.pool.size ≡ pos (suc (occupied w.pool.clients)))
    × (occupied two.pool.clients ≡ occupied w.pool.clients + 2)
remove_both-miscounts_example =
    remove_both-miscounts two 0 1 0 1 two-Inv refl refl λ e. absurd (omega arith)

-- The owner of den and attic disconnects in the attic.
disconnect-orphans_example :
    (w : World) × (disconnect (addr 0) manor ≡ ok (tt, w))
    × (object w.rooms (addr 0) ≡ some den)
    × (object w.clients (addr 0) ≡ none)
disconnect-orphans_example =
    disconnect-orphans manor 0 1 0 0 ann_upstairs ann_upstairs attic den manor-Inv refl refl refl
      refl attic-Slots refl refl refl refl (λ e. absurd (omega arith))
      (codes "ann", c_text-init (codes "ann") [] (are_positive-NonZero (codes "ann") refl))

-- The owner of the den is gone.
abbrev haunted : World
haunted = record town { clients = none ∷ some bob ∷ [] }

handle_request_rooms_tag-orphan_example : handle_request_rooms_tag (addr 1) haunted ≡ fault
handle_request_rooms_tag-orphan_example =
    handle_request_rooms_tag-orphan haunted (addr 0) den (codes "den") [] (null ∷ []) refl refl refl
      (are_positive-NonZero (codes "den") refl) (is_bytes-IsBytes (codes "den") refl) refl (addr 1)
      [] [] refl refl
