-- ===== src/Handlers/Unmoved.antt =====
-- What was there before members were put out of their room (server/client.c, the loop of
-- `handle_leave_room_tag`).
use lso_server.Base.{
  ℕ, suc, ◌≡◌, ◌≢◌, ◌⊎◌, refl, ap, sym, ◌∙◌, inl, inr, List, [], ◌∷◌, Option, some, none, get_elem?,
  Option-cases,
}
use lso_server.World.{Pointer, null, wild, addr, Client, object}
use lso_server.World.Heap.{object-put_ne, object-Put, Put}
use lso_server.Handlers.Released.{release, released}

-- Who was not told is as before.
release-other :
    (heap : List (Option Client)) (p : Pointer) (k : ℕ)
    → p ≢ addr k
    → object (release heap p (object heap p)) (addr k) ≡ object heap (addr k)
release-other heap null k ne = refl
release-other heap wild k ne = refl
release-other heap (addr b) k ne = elim (Option-cases (object heap (addr b))) [
  | inl e ↦ rw e refl
  | inr (d, e) ↦
      rw e (object-put_ne heap b k (some (record d { room = null })) (λ same. ne (ap addr same)))
]

pub released-other :
    (heap : List (Option Client)) (ps : List Pointer) (k : ℕ)
    → ((i : ℕ) → get_elem? ps i ≢ some (addr k))
    → object (released heap ps) (addr k) ≡ object heap (addr k)
released-other heap [] k absent = refl
released-other heap (p ∷ ps) k absent =
    released-other (release heap p (object heap p)) ps k (λ i. absent (suc i))
    ∙ release-other heap p k (λ e. absent 0 (ap some e))

-- The client was there before, with the same user, and is in no other room.
abbrev pub Before : List (Option Client) → ℕ → Client → Type 0
Before heap k d =
    (c : Client) × (object heap (addr k) ≡ some c)
    × (d.user ≡ c.user)
    × ((d.room ≡ null) ⊎ (d.room ≡ c.room))

release-Before :
    (heap : List (Option Client)) (p : Pointer) (k : ℕ) (d : Client)
    → object (release heap p (object heap p)) (addr k) ≡ some d
    → Before heap k d
release-Before heap null k d e = (d, e, refl, inr refl)
release-Before heap wild k d e = (d, e, refl, inr refl)
release-Before heap (addr b) k d e = found (Option-cases (object heap (addr b)))
  where
    found :
        (object heap (addr b) ≡ none) ⊎ ((c : Client) × (object heap (addr b) ≡ some c))
        → Before heap k d
    found (inl f) = (
      d,
      sym (ap (λ (o : Option Client). object (release heap (addr b) o) (addr k)) f) ∙ e,
      refl,
      inr refl,
    )
    found (inr (c, f)) = put (
        object-Put heap b k c (some (record c { room = null })) d f
          (sym (ap (λ (o : Option Client). object (release heap (addr b) o) (addr k)) f) ∙ e))
      where
        same : some (record c { room = null }) ≡ some d → record c { room = null } ≡ d
        same g = cc

        put : Put heap b k (some (record c { room = null })) d → Before heap k d
        put (inl (at, g)) = (
          c,
          ap (λ (n : ℕ). object heap (addr n)) (sym at) ∙ f,
          ap (λ (x : Client). x.user) (sym (same g)),
          inl (ap (λ (x : Client). x.room) (sym (same g))),
        )
        put (inr (ne, g)) = (d, g, refl, inr refl)

pub released-Before :
    (heap : List (Option Client)) (ps : List Pointer) (k : ℕ) (d : Client)
    → object (released heap ps) (addr k) ≡ some d
    → Before heap k d
released-Before heap [] k d e = (d, e, refl, inr refl)
released-Before heap (p ∷ ps) k d e =
    let (x, live, user, room) = released-Before (release heap p (object heap p)) ps k d e in
    let (c, live', user', room') = release-Before heap p k x live in
    (c, live', user ∙ user', joined x c room room')
  where
    joined :
        (x c : Client)
        → (d.room ≡ null) ⊎ (d.room ≡ x.room)
        → (x.room ≡ null) ⊎ (x.room ≡ c.room)
        → (d.room ≡ null) ⊎ (d.room ≡ c.room)
    joined x c (inl e) h = inl e
    joined x c (inr e) (inl f) = inl (e ∙ f)
    joined x c (inr e) (inr f) = inr (e ∙ f)
