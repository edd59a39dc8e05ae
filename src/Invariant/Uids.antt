-- ===== src/Invariant/Uids.antt =====
-- The search by `uid` (server/client_pool.c, `find_index_in_client_pool`), where uids are distinct.
use lso_server.Base.{
  ℕ, zero, suc, ◌+◌, ◌<◌, ◌≡◌, ◌≢◌, refl, ap, ◌∙◌, ◌⊎◌, inl, inr, List, [], ◌∷◌, some, none, ok,
  true, false, arith, get_elem?, Bool-cases, ◌==◌,
}
use lso_server.World.{Pointer, null, wild, addr, Client, World, object}
use lso_server.World.Laws.{get_client-live}
use lso_server.ClientPool.{find_uid}
use lso_server.Invariant.{Inv}

-- Each slot is empty or leads to a client.
abbrev pub Members : World → List Pointer → Type 0
Members w ps =
    (i : ℕ) (q : Pointer)
    → get_elem? ps i ≡ some q
    → (q ≡ null) ⊎ ((a : ℕ) × (c : Client) × (q ≡ addr a) × (object w.clients (addr a) ≡ some c))

pub same_uid : (m n : ℕ) → (m == n) ≡ true → m ≡ n
same_uid m n h = ground arith

equal_uid : (n : ℕ) → (n == n) ≡ true
equal_uid n = ground arith

-- The client in a slot that is not empty.
pub slot-client :
    (w : World) (b : ℕ)
    → (addr b ≡ null)
      ⊎ ((a : ℕ) × (c : Client) × (addr b ≡ addr a) × (object w.clients (addr a) ≡ some c))
    → (c : Client) × (object w.clients (addr b) ≡ some c)
slot-client w b (inl e) = cc
slot-client w b (inr (a, c, e, f)) = (c, ap (object w.clients) e ∙ f)

no_wild :
    (w : World)
    → (wild ≡ null)
      ⊎ ((a : ℕ) × (c : Client) × (wild ≡ addr a) × (object w.clients (addr a) ≡ some c))
    → ⊥
no_wild w (inl e) = cc
no_wild w (inr (a, c, e, f)) = cc

module _ (w : World) (v : Inv w) (a : ℕ) (c : Client)
    (live : object w.clients (addr a) ≡ some c) where
  other_uid :
      (b : ℕ) (d : Client) → object w.clients (addr b) ≡ some d → b ≢ a → (d.uid == c.uid) ≡ false
  other_uid b d e ne = elim (Bool-cases (d.uid == c.uid)) [
    | inl h ↦ absurd (ne (v.uids.distinct b a d c e live (same_uid d.uid c.uid h)))
    | inr h ↦ h
  ]

  -- The search by `uid` finds the slot of the client itself.
  pub find_uid-slot :
      (ps : List Pointer) (i j : ℕ)
      → Members w ps
      → get_elem? ps j ≡ some (addr a)
      → ((k : ℕ) → k < j → get_elem? ps k ≢ some (addr a))
      → find_uid (addr a) ps i w ≡ ok (some (i + j), w)
  unfolding find_uid
  find_uid-slot [] i j slots at first = cc
  find_uid-slot (null ∷ ps) i zero slots at first = cc
  find_uid-slot (null ∷ ps) i (suc j) slots at first =
      find_uid-slot ps (i + 1) j (λ k. slots (suc k)) at (λ k h. first (suc k) (omega arith))
      ∙ ap (λ (n : ℕ). ok (some n, w)) (omega arith)
  find_uid-slot (wild ∷ ps) i j slots at first = absurd (no_wild w (slots 0 wild refl))
  find_uid-slot (addr b ∷ ps) i zero slots at first =
      rw
        (
          some_addr at,
          get_client-live (addr a) w c live,
          get_client-live (addr a) w c live,
          equal_uid c.uid,
        )
        (ap (λ (n : ℕ). ok (some n, w)) {x = i} (omega arith))
    where
      some_addr : some (addr b) ≡ some (addr a) → addr b ≡ addr a
      some_addr e = cc
  find_uid-slot (addr b ∷ ps) i (suc j) slots at first =
      let (d, there) = slot-client w b (slots 0 (addr b) refl) in
      let rest =
        find_uid-slot ps (i + 1) j (λ k. slots (suc k)) at (λ k h. first (suc k) (omega arith)) in
      rw
        (
          get_client-live (addr b) w d there,
          get_client-live (addr a) w c live,
          other_uid b d there (λ e. first 0 (omega arith) (ap (λ (n : ℕ). some (addr n)) e)),
        )
        (rest ∙ ap (λ (n : ℕ). ok (some n, w)) (omega arith))

  -- The search finds nothing among slots that do not lead to the client.
  pub find_uid-absent :
      (ps : List Pointer) (i : ℕ)
      → Members w ps
      → ((k : ℕ) → get_elem? ps k ≢ some (addr a))
      → find_uid (addr a) ps i w ≡ ok (none, w)
  unfolding find_uid
  find_uid-absent [] i slots others = refl
  find_uid-absent (null ∷ ps) i slots others =
      find_uid-absent ps (i + 1) (λ k. slots (suc k)) (λ k. others (suc k))
  find_uid-absent (wild ∷ ps) i slots others = absurd (no_wild w (slots 0 wild refl))
  find_uid-absent (addr b ∷ ps) i slots others =
      let (d, there) = slot-client w b (slots 0 (addr b) refl) in
      let rest = find_uid-absent ps (i + 1) (λ k. slots (suc k)) (λ k. others (suc k)) in
      rw
        (
          get_client-live (addr b) w d there,
          get_client-live (addr a) w c live,
          other_uid b d there (λ e. others 0 (ap (λ (n : ℕ). some (addr n)) e)),
        )
        rest
