-- ===== src/ClientPool/Lookup.antt =====
-- Which client `client_pool_get` finds.
use lso_server.Base.{
  ℕ, zero, suc, ◌-◌, ◌<◌, ◌≤◌, ◌≡◌, refl, ap, sym, ◌∙◌, ◌⊎◌, inl, inr, List, [], ◌∷◌, some, ℤ, pos,
  ok, Bool, true, false, arith, length, get_elem?, eqb_ℤ, not, ◌||◌, Bool-cases, dec_lt, ◌==◌, ◌^◌,
  ◌%◌,
}
use lso_server.Invariant.Slots.{is_null→null}
use lso_server.World.{Pointer, null, Client, World, object, is_null, is_no_string}
use lso_server.World.Laws.{get_client-live}
use lso_server.ClientPool.{scan_pool, client_pool_get, unsigned}

-- What the loop tests of a client: a name, and the id.
abbrev pub is_sought : ℤ → Client → Bool
is_sought id c = not (is_no_string c.user.name || not (eqb_ℤ c.user.id id))

-- Each slot is empty or leads to a client.
abbrev pub Slots : World → List Pointer → Type 0
Slots w ps =
    (i : ℕ) (q : Pointer)
    → get_elem? ps i ≡ some q
    → (q ≡ null) ⊎ ((c : Client) × (object w.clients q ≡ some c))

-- No slot before `n` leads to a client with a name and the id.
abbrev pub Misses : World → ℤ → List Pointer → ℕ → Type 0
Misses w id ps n =
    (i : ℕ) (q : Pointer) (c : Client)
    → i < n
    → get_elem? ps i ≡ some q
    → object w.clients q ≡ some c
    → is_sought id c ≡ false

-- `p` is the first of the first `n` slots that leads to a client with a name and the id, or null
-- if there is none.
abbrev pub IsFirst : World → ℤ → List Pointer → ℕ → Pointer → Type 0
IsFirst w id ps n p =
    ((p ≡ null) × Misses w id ps n)
    ⊎ ((i : ℕ) × (c : Client) × (i < n)
        × (get_elem? ps i ≡ some p)
        × (object w.clients p ≡ some c)
        × (is_sought id c ≡ true)
        × Misses w id ps i)

module _ (w : World) (id : ℤ) (q : Pointer) (ps : List Pointer)
    (skipped : (c : Client) → object w.clients q ≡ some c → is_sought id c ≡ false) where
  Misses-later : (n : ℕ) → Misses w id ps n → Misses w id (q ∷ ps) (suc n)
  Misses-later n rest zero p c h e live = skipped c (ap (object w.clients) (slot p q e) ∙ live)
    where
      slot : (p q : Pointer) → some q ≡ some p → q ≡ p
      slot p q e = cc
  Misses-later n rest (suc i) p c h e live = rest i p c (omega arith) e live

  IsFirst-later : (n : ℕ) (p : Pointer) → IsFirst w id ps n p → IsFirst w id (q ∷ ps) (suc n) p
  IsFirst-later n p (inl (e, none_before)) = inl (e, Misses-later n none_before)
  IsFirst-later n p (inr (i, c, h, e, live, sought, before)) =
      inr (suc i, c, omega arith, e, live, sought, Misses-later i before)

null-none : (w : World) (q : Pointer) (c : Client) → q ≡ null → object w.clients q ≡ some c → ⊥
null-none w q c e live = null_object (sym (ap (object w.clients) e) ∙ live)
  where
    null_object : object w.clients null ≡ some c → ⊥
    null_object h = cc

not-true : (b : Bool) → not b ≡ true → b ≡ false
not-true b h = ground arith

not-false : (b : Bool) → not b ≡ false → b ≡ true
not-false b h = ground arith

abbrev pub Finds : World → ℤ → List Pointer → ℕ → Type 0
Finds w id ps n = (p : Pointer) × (scan_pool id ps n w ≡ ok (p, w)) × IsFirst w id ps n p

-- One slot in front of those that `rest` is about.
scan_pool-slot :
    (w : World) (id : ℤ) (q : Pointer) (ps : List Pointer) (n : ℕ)
    → (q ≡ null) ⊎ ((c : Client) × (object w.clients q ≡ some c))
    → Finds w id ps n
    → Finds w id (q ∷ ps) (suc n)
unfolding scan_pool
scan_pool-slot w id q ps n slot rest = head slot
  where
    Found : Type 0
    Found = Finds w id (q ∷ ps) (suc n)

    some_rounds : (suc n == 0) ≡ false
    some_rounds = ground arith

    less : suc n - 1 ≡ n
    less = omega arith

    is_live : (c : Client) → is_null q ≡ false → object w.clients q ≡ some c → Found
    is_live c used live = elim (Bool-cases (is_sought id c)) [
      | inl sought ↦ (
        q,
        rw (some_rounds, used, get_client-live q w c live, not-true _ sought),
        inr (0, c, omega arith, refl, live, sought, λ i p d k. absurd (omega arith)),
      )
      | inr other ↦ (
        rest.0,
        rw (some_rounds, used, get_client-live q w c live, not-false _ other, less) rest.1,
        IsFirst-later w id q ps (λ d e. ap (is_sought id) (same d e) ∙ other) n rest.0 rest.2,
      )
    ]
      where
        same : (d : Client) → object w.clients q ≡ some d → d ≡ c
        same d e = cc

    head : (q ≡ null) ⊎ ((c : Client) × (object w.clients q ≡ some c)) → Found
    head (inl e) = (
      rest.0,
      rw (some_rounds, ap is_null e, less) rest.1,
      IsFirst-later w id q ps (λ c live. absurd (null-none w q c e live)) n rest.0 rest.2,
    )
    head (inr (c, live)) = elim (Bool-cases (is_null q)) [
      | inl empty ↦ absurd (null-none w q c (is_null→null q empty) live)
      | inr used ↦ is_live c used live
    ]

scan_pool-IsFirst :
    (w : World) (id : ℤ) (ps : List Pointer) (n : ℕ) → Slots w ps → n ≤ length ps → Finds w id ps n
unfolding scan_pool
scan_pool-IsFirst w id [] zero slots h =
    (null, refl, inl (refl, λ i q c k e live. absurd (omega arith)))
scan_pool-IsFirst w id [] (suc n) slots h = absurd (omega arith)
scan_pool-IsFirst w id (q ∷ ps) zero slots h =
    (null, refl, inl (refl, λ i q c k e live. absurd (omega arith)))
scan_pool-IsFirst w id (q ∷ ps) (suc n) slots h =
    scan_pool-slot w id q ps n (slots 0 q refl)
      (scan_pool-IsFirst w id ps n (λ i. slots (suc i)) (omega arith))

-- If every slot of the pool is empty or leads to a client, and `size` is at most the number of
-- slots, the search returns: it finds the first client with a name and the id among the first
-- `size` slots, or null if there is none. It does not look at the slots behind those.
pub client_pool_get-IsFirst :
    (w : World) (id : ℤ) (n : ℕ)
    → Slots w w.pool.clients
    → w.pool.size ≡ pos n
    → n ≤ length w.pool.clients
    → n < 2 ^ 32
    → (p : Pointer) × (client_pool_get id w ≡ ok (p, w)) × IsFirst w id w.pool.clients n p
unfolding client_pool_get
client_pool_get-IsFirst w id n slots size few small =
    let (p, e, first) = scan_pool-IsFirst w id w.pool.clients n slots few in
    (
      p,
      ap (λ z. scan_pool id w.pool.clients (unsigned z) w) size
          ∙ ap (λ (k : ℕ). scan_pool id w.pool.clients k w) fits
          ∙ e,
      first,
    )
  where
    fits : n % 2 ^ 32 ≡ n
    fits = omega arith

true-false : true ≡ false → ⊥
true-false h = cc

-- There is one first.
IsFirst-unique :
    (w : World) (id : ℤ) (ps : List Pointer) (n : ℕ) (p q : Pointer)
    → IsFirst w id ps n p
    → IsFirst w id ps n q
    → p ≡ q
IsFirst-unique w id ps n p q (inl (e, h)) (inl (e', h')) = e ∙ sym e'
IsFirst-unique w id ps n p q (inl (e, h)) (inr (j, d, b, at, live, sought, h')) =
    absurd (true-false (sym sought ∙ h j q d b at live))
IsFirst-unique w id ps n p q (inr (i, c, b, at, live, sought, h)) (inl (e', h')) =
    absurd (true-false (sym sought ∙ h' i p c b at live))
IsFirst-unique w id ps n p q (inr (i, c, b, at, live, sought, h))
      (inr (j, d, b', at', live', sought', h')) =
    elim (dec_lt i j) [
      | yes lt ↦ absurd (true-false (sym sought ∙ h' i p c lt at live))
      | no ge ↦ elim (dec_lt j i) [
        | yes gt ↦ absurd (true-false (sym sought' ∙ h j q d gt at' live'))
        | no le ↦ some_pointer (same_slot (omega arith))
      ]
    ]
  where
    same_slot : i ≡ j → some p ≡ some q
    same_slot e = sym at ∙ ap (get_elem? ps) e ∙ at'

    some_pointer : some p ≡ some q → p ≡ q
    some_pointer e = cc

-- The search finds the first.
pub client_pool_get_lem :
    (w : World) (id : ℤ) (n : ℕ) (p : Pointer)
    → Slots w w.pool.clients
    → w.pool.size ≡ pos n
    → n ≤ length w.pool.clients
    → n < 2 ^ 32
    → IsFirst w id w.pool.clients n p
    → client_pool_get id w ≡ ok (p, w)
client_pool_get_lem w id n p slots size few small first =
    let (q, e, first') = client_pool_get-IsFirst w id n slots size few small in
    e ∙ ap (λ (x : Pointer). ok (x, w)) (IsFirst-unique w id w.pool.clients n q p first' first)

-- If every slot of the pool is empty or leads to a client and `size` is at most the number of
-- slots, a client that stands in no slot before `size` is not found, even if it stands in a later
-- slot.
pub client_pool_get-Misses :
    (w : World) (id : ℤ) (n : ℕ)
    → Slots w w.pool.clients
    → w.pool.size ≡ pos n
    → n ≤ length w.pool.clients
    → n < 2 ^ 32
    → Misses w id w.pool.clients n
    → client_pool_get id w ≡ ok (null, w)
client_pool_get-Misses w id n slots size few small missed =
    cases (client_pool_get-IsFirst w id n slots size few small)
  where
    cases :
        (p : Pointer) × (client_pool_get id w ≡ ok (p, w)) × IsFirst w id w.pool.clients n p
        → client_pool_get id w ≡ ok (null, w)
    cases (p, e, inl (none_found, h)) = e ∙ ap (λ (q : Pointer). ok (q, w)) none_found
    cases (p, e, inr (i, c, before, slot, live, sought, h)) =
        absurd (true-false (sym sought ∙ missed i p c before slot live))
