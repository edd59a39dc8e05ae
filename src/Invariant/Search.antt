-- ===== src/Invariant/Search.antt =====
-- What the search by `uid` finds, in the pool and in the slots of a room.
use lso_server.Base.{
  ℕ, zero, suc, ◌+◌, ◌≡◌, refl, ap, subst, ◌∙◌, ◌⊎◌, inl, inr, List, [], ◌∷◌, Option, none, some,
  Bool, true, false, arith, get_elem?, Result, ok, fault, exited, if◌then◌else◌, Bool-cases, ◌==◌,
}
use lso_server.World.{
  Pointer, null, wild, addr, Client, World, ◌>>=◌, pure, is_null, object, get_client,
}
use lso_server.World.Laws.{Ends, Ends-get_client}
use lso_server.ClientPool.{find_uid}

pub Ends-map :
    {A : Type 0} (P Q : A → World → Type 0) (r : Result (A × World))
    → ((a : A) (w : World) → P a w → Q a w)
    → Ends P r
    → Ends Q r
Ends-map P Q (ok (a, w)) f p = f a w p
Ends-map P Q fault f p = tt
Ends-map P Q exited f p = tt

-- A slot that is in use by a client with the uid, or with another.
abbrev pub Uses : World → Pointer → Pointer → Bool → Type 0
Uses w client q same =
    (c : Client) × (d : Client) × (object w.clients client ≡ some c)
    × (object w.clients q ≡ some d)
    × ((d.uid == c.uid) ≡ same)

abbrev pub Found : World → Pointer → List Pointer → ℕ → Option ℕ → Type 0
Found w client ps i found =
    ((found ≡ none)
      × ((k : ℕ) (q : Pointer)
          → get_elem? ps k ≡ some q
          → is_null q ≡ false
          → Uses w client q false))
    ⊎ ((j : ℕ) × (q : Pointer) × (found ≡ some (i + j))
        × (get_elem? ps j ≡ some q)
        × (is_null q ≡ false)
        × Uses w client q true)

abbrev pub Finds : World → Pointer → List Pointer → ℕ → Option ℕ → World → Type 0
Finds w client ps i found w' = (w' ≡ w) × Found w client ps i found

slot_eq : {p q : Pointer} → some p ≡ some q → p ≡ q
slot_eq e = cc

module _ (w : World) (client p : Pointer) (ps : List Pointer) (i : ℕ) where
  Found-later :
      (found : Option ℕ)
      → (is_null p ≡ false → Uses w client p false)
      → Found w client ps (i + 1) found
      → Found w client (p ∷ ps) i found
  Found-later found here (inl (e, others)) = inl (e, all)
    where
      all :
          (k : ℕ) (q : Pointer)
          → get_elem? (p ∷ ps) k ≡ some q
          → is_null q ≡ false
          → Uses w client q false
      all zero q at used =
          subst (λ (x : Pointer). Uses w client x false) (slot_eq at)
            (here (ap is_null (slot_eq at) ∙ used))
      all (suc k) q at used = others k q at used
  Found-later found here (inr (j, q, e, at, used, same)) =
      inr (suc j, q, e ∙ ap some (omega arith), at, used, same)

  find_slot :
      Ends (Finds w client ps (i + 1)) (find_uid client ps (i + 1) w)
      → is_null p ≡ false
      → Ends (Finds w client (p ∷ ps) i) (
          (get_client p >>= λ temp. get_client client >>= λ c.
          if temp.uid == c.uid then pure (some i) else find_uid client ps (i + 1))
            w)
  find_slot rest used = Ends-get_client (Finds w client (p ∷ ps) i) p _ w λ d there.
      Ends-get_client (Finds w client (p ∷ ps) i) client _ w λ c live.
        elim (Bool-cases (d.uid == c.uid)) [
          | inl same ↦
              rw same
                (refl, inr (0, p, ap some (omega arith), refl, used, (c, d, live, there, same)))
          | inr other ↦ rw other (
              Ends-map (Finds w client ps (i + 1)) (Finds w client (p ∷ ps) i) _
                (λ found w' (e, f). (e, Found-later found (λ _. (c, d, live, there, other)) f))
                rest)
        ]

pub find_uid-Finds :
    (client : Pointer) (ps : List Pointer) (i : ℕ) (w : World)
    → Ends (Finds w client ps i) (find_uid client ps i w)
unfolding find_uid
find_uid-Finds client [] i w = (refl, inl (refl, λ k q e. cc))
find_uid-Finds client (null ∷ ps) i w =
    Ends-map (Finds w client ps (i + 1)) (Finds w client (null ∷ ps) i) _
      (λ found w' (e, f). (e, Found-later w client null ps i found (λ h. cc) f))
      (find_uid-Finds client ps (i + 1) w)
find_uid-Finds client (wild ∷ ps) i w =
    find_slot w client wild ps i (find_uid-Finds client ps (i + 1) w) refl
find_uid-Finds client (addr a ∷ ps) i w =
    find_slot w client (addr a) ps i (find_uid-Finds client ps (i + 1) w) refl
