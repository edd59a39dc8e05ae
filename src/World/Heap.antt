-- ===== src/World/Heap.antt =====
-- Objects of a heap before and after an assignment, a free or an allocation.
use lso_server.Base.{
  ℕ, zero, suc, ◌<◌, ◌≡◌, ◌≢◌, refl, ap, sym, ◌∙◌, ℕ_discrete, ◌⊎◌, inl, inr, List, [], ◌∷◌, ◌++◌,
  Option, some, none, arith, length, get_elem?-set_self, get_elem?-set_ne,
}
use lso_server.World.{addr, object, put_object, join}

-- What the address `b` holds once `addr a` holds `o`.
abbrev pub Put : {A : Type 0} → List (Option A) → ℕ → ℕ → Option A → A → Type 0
Put heap a b o y = ((a ≡ b) × (o ≡ some y)) ⊎ ((a ≢ b) × (object heap (addr b) ≡ some y))

module _ {A : Type 0} where
  pub object-lt :
      (heap : List (Option A)) (a : ℕ) (x : A) → object heap (addr a) ≡ some x → a < length heap
  object-lt [] a x e = cc
  object-lt (o ∷ heap) zero x e = omega arith
  object-lt (o ∷ heap) (suc a) x e = omega (arith, object-lt heap a x e)

  pub object-put_self :
      (heap : List (Option A)) (a : ℕ) (x : A) (o : Option A)
      → object heap (addr a) ≡ some x
      → object (put_object heap (addr a) o) (addr a) ≡ o
  object-put_self heap a x o e = ap join (get_elem?-set_self heap a o (object-lt heap a x e))

  pub object-put_ne :
      (heap : List (Option A)) (a b : ℕ) (o : Option A)
      → a ≢ b
      → object (put_object heap (addr a) o) (addr b) ≡ object heap (addr b)
  object-put_ne heap a b o ne = ap join (get_elem?-set_ne heap a b o ne)

  -- What an address holds after an assignment to a live object.
  pub object-Put :
      (heap : List (Option A)) (a b : ℕ) (x : A) (o : Option A) (y : A)
      → object heap (addr a) ≡ some x
      → object (put_object heap (addr a) o) (addr b) ≡ some y
      → Put heap a b o y
  object-Put heap a b x o y live e = elim (ℕ_discrete a b) [
    | yes same ↦ inl (
      same,
      sym (object-put_self heap a x o live)
          ∙ ap (λ (k : ℕ). object (put_object heap (addr a) o) (addr k)) same
          ∙ e,
    )
    | no ne ↦ inr (ne, sym (object-put_ne heap a b o ne) ∙ e)
  ]

  -- A new object stands behind the others.
  pub object-malloc_self :
      (heap : List (Option A)) (x : A) → object (heap ++ some x ∷ []) (addr (length heap)) ≡ some x
  object-malloc_self [] x = refl
  object-malloc_self (o ∷ heap) x = object-malloc_self heap x

  pub object-malloc_forth :
      (heap : List (Option A)) (x y : A) (a : ℕ)
      → object heap (addr a) ≡ some y
      → object (heap ++ some x ∷ []) (addr a) ≡ some y
  object-malloc_forth [] x y a e = cc
  object-malloc_forth (o ∷ heap) x y zero e = e
  object-malloc_forth (o ∷ heap) x y (suc a) e = object-malloc_forth heap x y a e

  pub object-malloc_new : (heap : List (Option A)) → object heap (addr (length heap)) ≡ none
  object-malloc_new [] = refl
  object-malloc_new (o ∷ heap) = object-malloc_new heap

  pub object-malloc_ne :
      (heap : List (Option A)) (x : A) (a : ℕ)
      → length heap ≢ a
      → object (heap ++ some x ∷ []) (addr a) ≡ object heap (addr a)
  object-malloc_ne [] x zero ne = absurd (ne refl)
  object-malloc_ne [] x (suc a) ne = refl
  object-malloc_ne (o ∷ heap) x zero ne = refl
  object-malloc_ne (o ∷ heap) x (suc a) ne = object-malloc_ne heap x a (λ e. ne (ap suc e))

  pub object-malloc_back :
      (heap : List (Option A)) (x y : A) (a : ℕ)
      → object (heap ++ some x ∷ []) (addr a) ≡ some y
      → ((a ≡ length heap) × (x ≡ y)) ⊎ (object heap (addr a) ≡ some y)
  object-malloc_back [] x y zero e = inl (refl, ground arith)
  object-malloc_back [] x y (suc a) e = cc
  object-malloc_back (o ∷ heap) x y zero e = inr e
  object-malloc_back (o ∷ heap) x y (suc a) e = shifted (object-malloc_back heap x y a e)
    where
      shifted :
          ((a ≡ length heap) × (x ≡ y)) ⊎ (object heap (addr a) ≡ some y)
          → ((suc a ≡ suc (length heap)) × (x ≡ y)) ⊎ (object heap (addr a) ≡ some y)
      shifted (inl (e, f)) = inl (ap suc e, f)
      shifted (inr f) = inr f
