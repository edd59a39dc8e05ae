-- ===== src/Soundness/Leaving.antt =====
-- A member leaves a room that it does not own, and everything still fits together.
use lso_server.Base.{
  ℕ, ◌≡◌, ◌≢◌, ap, sym, subst, ◌∙◌, ◌⊎◌, inl, inr, List, Option, some, ℤ, ℕ_discrete, get_elem?,
  set, get_elem?-lt, get_elem?-set_ne,
}
use lso_server.World.{Pointer, null, addr, Client, Room, object, put_object}
use lso_server.World.Heap.{object-put_self, object-put_ne, object-Put, Put}
use lso_server.Invariant.Slots.{set-slot-cases}
use lso_server.Soundness.{IsName, IsHouse, IsMember, Stands, Housed}
use lso_server.Soundness.Heaps.{some_eq, addr_eq}

-- The client `c` at `addr a` leaves its slot `i` of the room `r` at `addr b`.
module _ (clients : List (Option Client)) (rooms : List (Option Room)) (v : Housed clients rooms)
    (a b i : ℕ) (c : Client) (r : Room) (n : ℤ) (live : object clients (addr a) ≡ some c)
    (inside : c.room ≡ addr b) (there : object rooms (addr b) ≡ some r)
    (at : get_elem? r.clients i ≡ some (addr a)) (guest : r.owner ≢ addr a) where
  abbrev c' : Client
  c' = record c { room = null }

  abbrev r' : Room
  r' = record r { clients = set r.clients i null; clients_count = n }

  abbrev clients' : List (Option Client)
  clients' = put_object clients (addr a) (some c')

  abbrev rooms' : List (Option Room)
  rooms' = put_object rooms (addr b) (some r')

  abbrev Slot : ℕ → Pointer → Type 0
  Slot j q = ((j ≡ i) × (q ≡ null)) ⊎ ((j ≢ i) × (get_elem? r.clients j ≡ some q))

  slot : (j : ℕ) (q : Pointer) → get_elem? r'.clients j ≡ some q → Slot j q
  slot j q e = set-slot-cases r.clients i j null q (get_elem?-lt r.clients i (addr a) at) e

  -- The slots of the others are kept.
  kept :
      (j d : ℕ)
      → a ≢ d
      → get_elem? r.clients j ≡ some (addr d)
      → get_elem? r'.clients j ≡ some (addr d)
  kept j d ne e =
      get_elem?-set_ne r.clients i j null
        (λ same. ne (addr_eq (some_eq (sym at ∙ ap (get_elem? r.clients) same ∙ e))))
      ∙ e

  left-IsHouse : IsHouse r'
  left-IsHouse =
      let h = v.house b r there in
      record {
        owner = h.owner;
        seat = h.seat;
        owned = h.owned;
        seated = kept h.seat h.owner (λ e. guest (h.owned ∙ ap addr (sym e))) h.seated;
        once = λ j k d e f. once j k d (slot j (addr d) e) (slot k (addr d) f);
        titled = h.titled;
      }
    where
      once : (j k d : ℕ) → Slot j (addr d) → Slot k (addr d) → j ≡ k
      once j k d (inl (e, f)) h = cc
      once j k d (inr h) (inl (e, f)) = cc
      once j k d (inr (ne, e)) (inr (ne', e')) = (v.house b r there).once j k d e e'

  carried : (k d : ℕ) → a ≢ d → IsMember clients k d → IsMember clients' k d
  carried k d ne m = record {
    client = m.client;
    live = object-put_ne clients a d (some c') ne ∙ m.live;
    inside = m.inside;
    signed = m.signed;
  }

  -- It is a member of no other room.
  elsewhere : (k : ℕ) → b ≢ k → IsMember clients k a → ⊥
  elsewhere k ne m =
      ne (
        addr_eq (sym inside ∙ ap (λ (x : Client). x.room) (some_eq (sym live ∙ m.live)) ∙ m.inside))

  Stands-after : (d : ℕ) (x : Client) → a ≢ d → Stands rooms d x → Stands rooms' d x
  Stands-after d x other (inl e) = inl e
  Stands-after d x other (inr (k, s, j, e, f, h)) = elim (ℕ_discrete b k) [
    | yes same ↦ inr (
      b,
      r',
      j,
      e ∙ ap addr (sym same),
      object-put_self rooms b r (some r') there,
      kept j d other (
          ap (λ (y : Room). get_elem? y.clients j)
            (some_eq (sym there ∙ ap (λ (m : ℕ). object rooms (addr m)) same ∙ f))
          ∙ h),
    )
    | no ne ↦ inr (k, s, j, e, object-put_ne rooms b k (some r') ne ∙ f, h)
  ]

  pub Housed-leave : Housed clients' rooms'
  Housed-leave = record {
    named = λ d x e. name d x (object-Put clients a d c (some c') x live e);
    stands = λ d x e. stand d x (object-Put clients a d c (some c') x live e);
    house = λ k s e. house k s (object-Put rooms b k r (some r') s there e);
    member = λ k s j q e h. member k s j q (object-Put rooms b k r (some r') s there e) h;
  }
    where
      name : (d : ℕ) (x : Client) → Put clients a d (some c') x → IsName x.user.name
      name d x (inl (e, f)) =
          subst (λ (y : Client). IsName y.user.name) (some_eq f) (v.named a c live)
      name d x (inr (ne, f)) = v.named d x f

      stand : (d : ℕ) (x : Client) → Put clients a d (some c') x → Stands rooms' d x
      stand d x (inl (e, f)) = inl (ap (λ (y : Client). y.room) (sym (some_eq f)))
      stand d x (inr (ne, f)) = Stands-after d x ne (v.stands d x f)

      house : (k : ℕ) (s : Room) → Put rooms b k (some r') s → IsHouse s
      house k s (inl (e, f)) = subst IsHouse (some_eq f) left-IsHouse
      house k s (inr (ne, f)) = v.house k s f

      Leads : ℕ → Pointer → Type 0
      Leads k q = (q ≡ null) ⊎ ((d : ℕ) × (q ≡ addr d) × IsMember clients' k d)

      taken :
          (j : ℕ) (q : Pointer)
          → j ≢ i
          → get_elem? r.clients j ≡ some q
          → (q ≡ null) ⊎ ((d : ℕ) × (q ≡ addr d) × IsMember clients b d)
          → Leads b q
      taken j q ne h (inl e) = inl e
      taken j q ne h (inr (d, e, m)) = inr (
        d,
        e,
        carried b d
            (λ same. ne ((v.house b r there).once j i a (h ∙ ap some (e ∙ ap addr (sym same))) at))
            m,
      )

      here : (j : ℕ) (q : Pointer) → Slot j q → Leads b q
      here j q (inl (e, f)) = inl f
      here j q (inr (ne, h)) = taken j q ne h (v.member b r j q there h)

      other :
          (k : ℕ) (q : Pointer)
          → b ≢ k
          → (q ≡ null) ⊎ ((d : ℕ) × (q ≡ addr d) × IsMember clients k d)
          → Leads k q
      other k q ne (inl e) = inl e
      other k q ne (inr (d, e, m)) =
          inr
            (d, e, carried k d (λ same. elsewhere k ne (subst (IsMember clients k) (sym same) m)) m)

      member :
          (k : ℕ) (s : Room) (j : ℕ) (q : Pointer)
          → Put rooms b k (some r') s
          → get_elem? s.clients j ≡ some q
          → Leads k q
      member k s j q (inl (e, f)) h =
          subst (λ (m : ℕ). Leads m q) e
            (here j q (slot j q (ap (λ (y : Room). get_elem? y.clients j) (some_eq f) ∙ h)))
      member k s j q (inr (ne, f)) h = other k q ne (v.member k s j q f h)
