-- ===== src/Roster/Slots.antt =====
-- The bag that the slots of server/client_pool.c stand for.
use lso_server.Base.{
  ℕ, zero, suc, ◌≡◌, ◌≢◌, refl, ap, List, [], ◌∷◌, some, arith, length, get_elem?, set, subst,
}
use mathlib.Core.List.{Perm}
use mathlib.Core.List.Perm
use mathlib.Core.Quot
use mathlib.Core.Quot.{Quot}
use lso_server.World.{Pointer, null, wild, addr, World}
use lso_server.Invariant.{occupied}
use lso_server.Roster.{Bag, put, count}

-- The addresses in the slots.
abbrev pub members : List Pointer → List ℕ
members [] = []
members (null ∷ ps) = members ps
members (wild ∷ ps) = members ps
members (addr a ∷ ps) = a ∷ members ps

-- The clients that are connected.
abbrev pub connected : World → Bag
connected w = Quot.mk (members w.pool.clients)

members-set_in :
    (ps : List Pointer) (j a : ℕ)
    → get_elem? ps j ≡ some null
    → Perm (members (set ps j (addr a))) (a ∷ members ps)
members-set_in [] j a e = cc
members-set_in (null ∷ ps) zero a e = Perm.rfl
members-set_in (wild ∷ ps) zero a e = cc
members-set_in (addr b ∷ ps) zero a e = cc
members-set_in (null ∷ ps) (suc j) a e = members-set_in ps j a e
members-set_in (wild ∷ ps) (suc j) a e = members-set_in ps j a e
members-set_in (addr b ∷ ps) (suc j) a e =
    Perm.trans (Perm.cons b (members-set_in ps j a e)) (Perm.swap a b (members ps))

members-set_out :
    (ps : List Pointer) (j a : ℕ)
    → get_elem? ps j ≡ some (addr a)
    → Perm (members ps) (a ∷ members (set ps j null))
members-set_out [] j a e = cc
members-set_out (null ∷ ps) zero a e = cc
members-set_out (wild ∷ ps) zero a e = cc
members-set_out (addr b ∷ ps) zero a e =
    subst (λ (n : ℕ). Perm (n ∷ members ps) (a ∷ members ps)) (same e) Perm.rfl
  where
    same : some (addr b) ≡ some (addr a) → a ≡ b
    same e = cc
members-set_out (null ∷ ps) (suc j) a e = members-set_out ps j a e
members-set_out (wild ∷ ps) (suc j) a e = members-set_out ps j a e
members-set_out (addr b ∷ ps) (suc j) a e =
    Perm.trans (Perm.cons b (members-set_out ps j a e)) (Perm.swap a b (members (set ps j null)))

-- A slot that is filled, and one that is emptied, in the bag.
pub bag-set_in :
    (ps : List Pointer) (j a : ℕ)
    → get_elem? ps j ≡ some null
    → Path Bag (Quot.mk (members (set ps j (addr a)))) (put a (Quot.mk (members ps)))
unfolding put
bag-set_in ps j a e = Quot.sound (members-set_in ps j a e)

pub bag-set_out :
    (ps : List Pointer) (j a : ℕ)
    → get_elem? ps j ≡ some (addr a)
    → Path Bag (Quot.mk (members ps)) (put a (Quot.mk (members (set ps j null))))
unfolding put
bag-set_out ps j a e = Quot.sound (members-set_out ps j a e)

-- The bag has as many clients as there are slots in use, if none of them is wild.
pub length-members :
    (ps : List Pointer) → ((i : ℕ) → get_elem? ps i ≢ some wild) → length (members ps) ≡ occupied ps
length-members [] h = refl
length-members (null ∷ ps) h = length-members ps (λ i. h (suc i))
length-members (wild ∷ ps) h = absurd (h 0 refl)
length-members (addr a ∷ ps) h = ap suc (length-members ps (λ i. h (suc i)))

-- A client that stands in no slot is not in the bag.
pub count-members :
    (ps : List Pointer) (a : ℕ)
    → ((i : ℕ) → get_elem? ps i ≢ some (addr a))
    → count a (members ps) ≡ 0
count-members [] a h = refl
count-members (null ∷ ps) a h = count-members ps a (λ i. h (suc i))
count-members (wild ∷ ps) a h = count-members ps a (λ i. h (suc i))
count-members (addr b ∷ ps) a h =
    let ne : b ≢ a = λ e. h 0 (ap (λ (n : ℕ). some (addr n)) e) in
    ground (arith, count-members ps a (λ i. h (suc i)))
