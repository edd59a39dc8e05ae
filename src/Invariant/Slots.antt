-- ===== src/Invariant/Slots.antt =====
-- Tables of slots: how many are in use, and the loops that look for one.
use lso_server.Base.{
  ℕ, zero, suc, ◌+◌, ◌≤◌, ◌<◌, ◌≡◌, ◌≢◌, refl, ap, ◌∙◌, ◌⊎◌, inl, inr, List, [], ◌∷◌, none, some,
  true, false, arith, length, sym, ℕ_discrete, get_elem?-set_self, get_elem?-set_ne, get_elem?, set,
  replicate,
}
use lso_server.World.{Pointer, null, wild, addr, is_null}
use lso_server.ClientPool.{empty_index}
use lso_server.Invariant.{occupied}

pub occupied-le-length : (ps : List Pointer) → occupied ps ≤ length ps
occupied-le-length [] = omega arith
occupied-le-length (p ∷ ps) = ground (arith, occupied-le-length ps)

pub occupied-set_in :
    (ps : List Pointer) (i : ℕ) (p : Pointer)
    → get_elem? ps i ≡ some null
    → is_null p ≡ false
    → occupied (set ps i p) ≡ occupied ps + 1
occupied-set_in [] i p e h = cc
occupied-set_in (q ∷ ps) zero p e h = ground arith
occupied-set_in (q ∷ ps) (suc i) p e h = ground (arith, occupied-set_in ps i p e h)

pub occupied-set_out :
    (ps : List Pointer) (i : ℕ) (p : Pointer)
    → get_elem? ps i ≡ some p
    → is_null p ≡ false
    → occupied ps ≡ occupied (set ps i null) + 1
occupied-set_out [] i p e h = cc
occupied-set_out (q ∷ ps) zero p e h = ground arith
occupied-set_out (q ∷ ps) (suc i) p e h = ground (arith, occupied-set_out ps i p e h)

pub occupied-replicate : (n : ℕ) → occupied (replicate n null) ≡ 0
occupied-replicate zero = refl
occupied-replicate (suc n) = occupied-replicate n

pub is_null→null : (p : Pointer) → is_null p ≡ true → p ≡ null
is_null→null null h = refl
is_null→null wild h = cc
is_null→null (addr a) h = cc

abbrev pub Search : List Pointer → ℕ → Type 0
Search ps i =
    ((empty_index ps i ≡ none) × (occupied ps ≡ length ps))
    ⊎ ((j : ℕ) × (empty_index ps i ≡ some (i + j)) × (get_elem? ps j ≡ some null))

empty_index-later :
    (p : Pointer) (ps : List Pointer) (i : ℕ)
    → is_null p ≡ false
    → Search ps (i + 1)
    → Search (p ∷ ps) i
unfolding empty_index
empty_index-later p ps i used (inl (e, f)) = inl (rw used e, rw used (ap suc f))
empty_index-later p ps i used (inr (j, e, f)) = inr (suc j, rw used (e ∙ ap some (omega arith)), f)

-- The search for an empty slot fails only if all are in use, and otherwise finds one.
pub empty_index-cases : (ps : List Pointer) (i : ℕ) → Search ps i
unfolding empty_index
empty_index-cases [] i = inl (refl, refl)
empty_index-cases (null ∷ ps) i = inr (0, ap some (omega arith), refl)
empty_index-cases (wild ∷ ps) i = empty_index-later wild ps i refl (empty_index-cases ps (i + 1))
empty_index-cases (addr a ∷ ps) i =
    empty_index-later (addr a) ps i refl (empty_index-cases ps (i + 1))

-- A slot of the pool after `slots[j] = p`.
pub set-slot-cases :
    (ps : List Pointer) (j i : ℕ) (p q : Pointer)
    → j < length ps
    → get_elem? (set ps j p) i ≡ some q
    → ((i ≡ j) × (q ≡ p)) ⊎ ((i ≢ j) × (get_elem? ps i ≡ some q))
set-slot-cases ps j i p q h e = elim (ℕ_discrete i j) [
  | yes same ↦ inl (
    same,
    some_eq (sym (sym (get_elem?-set_self ps j p h) ∙ ap (get_elem? (set ps j p)) (sym same) ∙ e)),
  )
  | no ne ↦ inr (ne, sym (get_elem?-set_ne ps j i p (λ s. ne (sym s))) ∙ e)
]
  where
    some_eq : some q ≡ some p → q ≡ p
    some_eq f = cc
