-- ===== src/Handlers/Released.antt =====
-- The heap after members were put out of their room (server/client.c, the loop of
-- `handle_leave_room_tag`).
use lso_server.Base.{
  ℕ, zero, suc, ◌≡◌, refl, ap, sym, subst, ◌∙◌, inl, inr, List, [], ◌∷◌, ◌++◌, Option, some, none,
  get_elem?, ℕ_discrete, Option-cases,
}
use lso_server.World.{Pointer, null, wild, addr, Client, object, put_object}
use lso_server.World.Heap.{object-put_self, object-put_ne}
use lso_server.Handlers.Relay.{packets, addressed}

-- The heap after `p->room = NULL` for each `p`.
abbrev pub release : List (Option Client) → Pointer → Option Client → List (Option Client)
release heap p none = heap
release heap p (some c) = put_object heap p (some (record c { room = null }))

abbrev pub released : List (Option Client) → List Pointer → List (Option Client)
released heap [] = heap
released heap (p ∷ ps) = released (release heap p (object heap p)) ps

-- The packets depend on the sockets only.
addressed-put :
    (heap : List (Option Client)) (a : ℕ) (c c' : Client) (q : Pointer) (bytes : List ℕ)
    → object heap (addr a) ≡ some c
    → c'.sockfd ≡ c.sockfd
    → addressed (object (put_object heap (addr a) (some c')) q) bytes
      ≡ addressed (object heap q) bytes
addressed-put heap a c c' null bytes live same = refl
addressed-put heap a c c' wild bytes live same = refl
addressed-put heap a c c' (addr b) bytes live same = elim (ℕ_discrete a b) [
  | yes e ↦
      ap (λ (k : ℕ). addressed (object (put_object heap (addr a) (some c')) (addr k)) bytes) (sym e)
      ∙ rw (object-put_self heap a c (some c') live, same)
          (ap (λ (o : Option Client). addressed o bytes) (sym live))
      ∙ ap (λ (k : ℕ). addressed (object heap (addr k)) bytes) e
  | no ne ↦ ap (λ (o : Option Client). addressed o bytes) (object-put_ne heap a b (some c') ne)
]

pub packets-put :
    (heap : List (Option Client)) (a : ℕ) (c c' : Client) (ps : List Pointer) (bytes : List ℕ)
    → object heap (addr a) ≡ some c
    → c'.sockfd ≡ c.sockfd
    → packets (put_object heap (addr a) (some c')) ps bytes ≡ packets heap ps bytes
packets-put heap a c c' [] bytes live same = refl
packets-put heap a c c' (p ∷ ps) bytes live same =
    ap (λ l. l ++ packets (put_object heap (addr a) (some c')) ps bytes)
      (addressed-put heap a c c' p bytes live same)
    ∙ ap (◌++◌ (addressed (object heap p) bytes)) (packets-put heap a c c' ps bytes live same)

pub released-append :
    (heap : List (Option Client)) (ps : List Pointer) (q : Pointer)
    → released heap (ps ++ q ∷ []) ≡ release (released heap ps) q (object (released heap ps) q)
released-append heap [] q = refl
released-append heap (p ∷ ps) q = released-append (release heap p (object heap p)) ps q

-- A client is still there.
release-live :
    (heap : List (Option Client)) (p : Pointer) (a : ℕ) (c : Client)
    → object heap (addr a) ≡ some c
    → (d : Client) × (object (release heap p (object heap p)) (addr a) ≡ some d)
release-live heap null a c live = (c, live)
release-live heap wild a c live = (c, live)
release-live heap (addr b) a c live = elim (ℕ_discrete b a) [
  | yes e ↦
      let here : object heap (addr b) ≡ some c = ap (λ (k : ℕ). object heap (addr k)) e ∙ live in
      (
        record c { room = null },
        rw here (
            ap
              (λ (k : ℕ).
                object (put_object heap (addr b) (some (record c { room = null }))) (addr k))
              (sym e)
            ∙ object-put_self heap b c (some (record c { room = null })) here),
      )
  | no ne ↦ elim (Option-cases (object heap (addr b))) [
    | inl e ↦ (c, rw e live)
    | inr (d, e) ↦ (c, rw e (object-put_ne heap b a (some (record d { room = null })) ne ∙ live))
  ]
]

pub released-live :
    (heap : List (Option Client)) (ps : List Pointer) (a : ℕ) (c : Client)
    → object heap (addr a) ≡ some c
    → (d : Client) × (object (released heap ps) (addr a) ≡ some d)
released-live heap [] a c live = (c, live)
released-live heap (p ∷ ps) a c live =
    let (d, e) = release-live heap p a c live in
    released-live (release heap p (object heap p)) ps a d e

-- The client at `addr k` is in no room.
abbrev IsAlone : List (Option Client) → ℕ → Type 0
IsAlone heap k = (d : Client) → object heap (addr k) ≡ some d → d.room ≡ null

room_of : (c d : Client) → some c ≡ some d → c.room ≡ null → d.room ≡ null
room_of c d e h = cc

release-IsAlone_self :
    (heap : List (Option Client)) (k : ℕ) → IsAlone (release heap (addr k) (object heap (addr k))) k
release-IsAlone_self heap k = elim (Option-cases (object heap (addr k))) [
  | inl e ↦ rw e (λ d f. absurd (nothing d (sym e ∙ f)))
  | inr (c, e) ↦ rw e (λ d f.
      room_of (record c { room = null }) d
        (sym (object-put_self heap k c (some (record c { room = null })) e) ∙ f) refl)
]
  where
    nothing : (d : Client) → none ≡ some d → ⊥
    nothing d h = cc

release-IsAlone :
    (heap : List (Option Client)) (p : Pointer) (k : ℕ)
    → IsAlone heap k
    → IsAlone (release heap p (object heap p)) k
release-IsAlone heap null k alone = alone
release-IsAlone heap wild k alone = alone
release-IsAlone heap (addr b) k alone = elim (ℕ_discrete b k) [
  | yes e ↦
      subst (λ (n : ℕ). IsAlone (release heap (addr b) (object heap (addr b))) n) e
        (release-IsAlone_self heap b)
  | no ne ↦ elim (Option-cases (object heap (addr b))) [
    | inl e ↦ rw e alone
    | inr (d, e) ↦
        rw e
          (λ x f. alone x (sym (object-put_ne heap b k (some (record d { room = null })) ne) ∙ f))
  ]
]

released_after-IsAlone :
    (heap : List (Option Client)) (ps : List Pointer) (k : ℕ)
    → IsAlone heap k
    → IsAlone (released heap ps) k
released_after-IsAlone heap [] k alone = alone
released_after-IsAlone heap (p ∷ ps) k alone =
    released_after-IsAlone (release heap p (object heap p)) ps k (release-IsAlone heap p k alone)

-- Who was told is in no room.
pub released-IsAlone :
    (heap : List (Option Client)) (ps : List Pointer) (i k : ℕ)
    → get_elem? ps i ≡ some (addr k)
    → IsAlone (released heap ps) k
released-IsAlone heap [] i k at = cc
released-IsAlone heap (p ∷ ps) zero k at =
    released_after-IsAlone (release heap p (object heap p)) ps k (
      subst (λ (q : Pointer). IsAlone (release heap q (object heap q)) k) (same at)
        (release-IsAlone_self heap k))
  where
    same : some p ≡ some (addr k) → addr k ≡ p
    same e = cc
released-IsAlone heap (p ∷ ps) (suc i) k at =
    released-IsAlone (release heap p (object heap p)) ps i k at
