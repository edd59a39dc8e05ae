-- ===== src/Server/LostUpdate.antt =====
-- Two threads in `client_pool_remove` of server/client_pool.c at the same time: no lock is taken at
-- the end of `client_handler`, and `client_pool.size--` is a load and a store.
use lso_server.Base.{
  ℕ, suc, ◌+◌, ◌≡◌, ◌≢◌, refl, ap, ◌∙◌, List, some, ℤ, pos, ok, true, arith, get_elem?, set,
  get_elem?-set_ne, ◌-ℤ◌, pos--ℤ,
}
use lso_server.World.{Pointer, null, addr, World, Cmd, pure, ◌>>=◌, ◌>>◌, gets, modify}
use lso_server.ClientPool.{vacate}
use lso_server.Invariant.{Inv, occupied}
use lso_server.Invariant.Slots.{occupied-set_out}

-- `client_pool.clients[i] = NULL`.
unfoldable clear_slot : ℕ → Cmd (Unit {0})
clear_slot i = modify λ w. record w { pool = record w.pool { clients = set w.pool.clients i null } }

-- The two halves of `client_pool.size--`.
unfoldable load_size : Cmd ℤ
load_size = gets λ w. w.pool.size

unfoldable store_size : ℤ → Cmd (Unit {0})
store_size size = modify λ w. record w { pool = record w.pool { size = size } }

-- One thread alone does what `vacate` does.
alone-vacate :
    (w : World) (i : ℕ)
    → (do clear_slot i; size ← load_size; store_size (size -ℤ pos 1); pure true) w
      ≡ vacate (some i) w
unfolding clear_slot load_size store_size
alone-vacate w i = refl

-- Both threads load the size before one of them stores it.
unfoldable pub remove_both : (i j : ℕ) → Cmd (Unit {0})
unfolding clear_slot load_size store_size
remove_both i j = do
  clear_slot i
  clear_slot j
  first ← load_size
  second ← load_size
  store_size (first -ℤ pos 1)
  store_size (second -ℤ pos 1)

-- In a state that satisfies the invariant, two clients in different slots are taken out of the
-- pool by two threads, of which both load the size before one of them stores it: the pool then
-- counts one client more than there are.
pub remove_both-miscounts :
    (w : World) (i j a b : ℕ)
    → Inv w
    → get_elem? w.pool.clients i ≡ some (addr a)
    → get_elem? w.pool.clients j ≡ some (addr b)
    → i ≢ j
    → (w' : World) × (remove_both i j w ≡ ok (tt, w'))
      × (w'.pool.size ≡ pos (suc (occupied w'.pool.clients)))
      × (occupied w.pool.clients ≡ occupied w'.pool.clients + 2)
unfolding remove_both clear_slot load_size store_size
remove_both-miscounts w i j a b v at at' ne = (_, refl, size, occupied_less)
  where
    ps : List Pointer
    ps = set w.pool.clients i null

    one_less : occupied w.pool.clients ≡ occupied ps + 1
    one_less = occupied-set_out w.pool.clients i (addr a) at refl

    two_less : occupied ps ≡ occupied (set ps j null) + 1
    two_less =
        occupied-set_out ps j (addr b) (get_elem?-set_ne w.pool.clients i j null ne ∙ at') refl

    occupied_less : occupied w.pool.clients ≡ occupied (set ps j null) + 2
    occupied_less = omega (arith, one_less, two_less)

    size : w.pool.size -ℤ pos 1 ≡ pos (suc (occupied (set ps j null)))
    size =
        ap (λ z. z -ℤ pos 1) (v.pool.counted ∙ ap pos occupied_less)
        ∙ pos--ℤ (occupied (set ps j null) + 2) 1 (omega arith)
        ∙ ap pos (omega arith)
