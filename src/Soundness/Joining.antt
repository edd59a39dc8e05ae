-- ===== src/Soundness/Joining.antt =====
-- A client joins a room, and everything still fits together.
use lso_server.Base.{
  ℕ, ◌≡◌, ◌≢◌, refl, ap, sym, subst, ◌∙◌, ◌⊎◌, inl, inr, List, Option, some, ℤ, ℕ_discrete,
  get_elem?, set, get_elem?-lt, get_elem?-set_self, get_elem?-set_ne,
}
use lso_server.World.{Pointer, null, addr, Client, Room, object, put_object}
use lso_server.World.Heap.{object-put_self, object-put_ne, object-Put, Put}
use lso_server.Invariant.Slots.{set-slot-cases}
use lso_server.Soundness.{IsSigned, IsName, IsHouse, IsMember, Stands, Housed}
use lso_server.Soundness.Heaps.{some_eq, addr_eq}

-- The client `c` at `addr a`, in no room, gets the empty slot `i` of the room `r` at `addr b`.
module _ (clients : List (Option Client)) (rooms : List (Option Room)) (v : Housed clients rooms)
    (a b i : ℕ) (c : Client) (r : Room) (n : ℤ) (live : object clients (addr a) ≡ some c)
    (alone : c.room ≡ null) (signed : IsSigned c.user.name) (there : object rooms (addr b) ≡ some r)
    (empty : get_elem? r.clients i ≡ some null) where
  abbrev c' : Client
  c' = record c { room = addr b }

  abbrev r' : Room
  r' = record r { clients = set r.clients i (addr a); clients_count = n }

  abbrev clients' : List (Option Client)
  clients' = put_object clients (addr a) (some c')

  abbrev rooms' : List (Option Room)
  rooms' = put_object rooms (addr b) (some r')

  -- It is a member of no room yet.
  outsider : (k : ℕ) → IsMember clients k a → ⊥
  outsider k m =
      clash (sym m.inside ∙ ap (λ (x : Client). x.room) (some_eq (sym m.live ∙ live)) ∙ alone)
    where
      clash : addr k ≡ null → ⊥
      clash e = cc

  pub fresh : (k : ℕ) → get_elem? r.clients k ≢ some (addr a)
  fresh k at = other (v.member b r k (addr a) there at)
    where
      other : (addr a ≡ null) ⊎ ((d : ℕ) × (addr a ≡ addr d) × IsMember clients b d) → ⊥
      other (inl e) = cc
      other (inr (d, e, m)) = outsider b (subst (IsMember clients b) (sym (addr_eq e)) m)

  carried : (k d : ℕ) → IsMember clients k d → IsMember clients' k d
  carried k d m = elim (ℕ_discrete a d) [
    | yes e ↦ absurd (outsider k (subst (IsMember clients k) (sym e) m))
    | no ne ↦ record {
      client = m.client;
      live = object-put_ne clients a d (some c') ne ∙ m.live;
      inside = m.inside;
      signed = m.signed;
    }
  ]

  abbrev Slot : ℕ → Pointer → Type 0
  Slot j q = ((j ≡ i) × (q ≡ addr a)) ⊎ ((j ≢ i) × (get_elem? r.clients j ≡ some q))

  slot : (j : ℕ) (q : Pointer) → get_elem? r'.clients j ≡ some q → Slot j q
  slot j q e = set-slot-cases r.clients i j (addr a) q (get_elem?-lt r.clients i null empty) e

  once : (j k d : ℕ) → Slot j (addr d) → Slot k (addr d) → j ≡ k
  once j k d (inl (e, f)) (inl (e', f')) = e ∙ sym e'
  once j k d (inl (e, f)) (inr (ne, at)) = absurd (fresh k (at ∙ ap some f))
  once j k d (inr (ne, at)) (inl (e, f)) = absurd (fresh j (at ∙ ap some f))
  once j k d (inr (ne, at)) (inr (ne', at')) = (v.house b r there).once j k d at at'

  -- A slot that was in use is still in use.
  kept : (j d : ℕ) → get_elem? r.clients j ≡ some (addr d) → get_elem? r'.clients j ≡ some (addr d)
  kept j d at =
      get_elem?-set_ne r.clients i j (addr a)
        (λ e. clash (sym at ∙ ap (get_elem? r.clients) (sym e) ∙ empty))
      ∙ at
    where
      clash : some (addr d) ≡ some null → ⊥
      clash e = cc

  joined-IsHouse : IsHouse r'
  joined-IsHouse =
      let h = v.house b r there in
      record {
        owner = h.owner;
        seat = h.seat;
        owned = h.owned;
        seated = kept h.seat h.owner h.seated;
        once = λ j k d e f. once j k d (slot j (addr d) e) (slot k (addr d) f);
        titled = h.titled;
      }

  Stands-after : (d : ℕ) (x : Client) → Stands rooms d x → Stands rooms' d x
  Stands-after d x (inl e) = inl e
  Stands-after d x (inr (k, s, j, e, f, at)) = elim (ℕ_discrete b k) [
    | yes same ↦ inr (
      b,
      r',
      j,
      e ∙ ap addr (sym same),
      object-put_self rooms b r (some r') there,
      kept j d (
          ap (λ (y : Room). get_elem? y.clients j)
            (some_eq (sym there ∙ ap (λ (m : ℕ). object rooms (addr m)) same ∙ f))
          ∙ at),
    )
    | no ne ↦ inr (k, s, j, e, object-put_ne rooms b k (some r') ne ∙ f, at)
  ]

  pub Housed-join : Housed clients' rooms'
  Housed-join = record {
    named = λ d x e. name d x (object-Put clients a d c (some c') x live e);
    stands = λ d x e. stand d x (object-Put clients a d c (some c') x live e);
    house = λ k s e. house k s (object-Put rooms b k r (some r') s there e);
    member = λ k s j q e at. member k s j q (object-Put rooms b k r (some r') s there e) at;
  }
    where
      name : (d : ℕ) (x : Client) → Put clients a d (some c') x → IsName x.user.name
      name d x (inl (e, f)) =
          subst (λ (y : Client). IsName y.user.name) (some_eq f) (v.named a c live)
      name d x (inr (ne, f)) = v.named d x f

      stand : (d : ℕ) (x : Client) → Put clients a d (some c') x → Stands rooms' d x
      stand d x (inl (e, f)) = inr (
        b,
        r',
        i,
        ap (λ (y : Client). y.room) (sym (some_eq f)),
        object-put_self rooms b r (some r') there,
        get_elem?-set_self r.clients i (addr a) (get_elem?-lt r.clients i null empty)
            ∙ ap (λ (m : ℕ). some (addr m)) e,
      )
      stand d x (inr (ne, f)) = Stands-after d x (v.stands d x f)

      house : (k : ℕ) (s : Room) → Put rooms b k (some r') s → IsHouse s
      house k s (inl (e, f)) = subst IsHouse (some_eq f) joined-IsHouse
      house k s (inr (ne, f)) = v.house k s f

      old :
          (k : ℕ) (q : Pointer)
          → (q ≡ null) ⊎ ((d : ℕ) × (q ≡ addr d) × IsMember clients k d)
          → (q ≡ null) ⊎ ((d : ℕ) × (q ≡ addr d) × IsMember clients' k d)
      old k q (inl e) = inl e
      old k q (inr (d, e, m)) = inr (d, e, carried k d m)

      taken :
          (j : ℕ) (q : Pointer)
          → Slot j q
          → (q ≡ null) ⊎ ((d : ℕ) × (q ≡ addr d) × IsMember clients' b d)
      taken j q (inl (e, f)) = inr (
        a,
        f,
        record {
          client = c';
          live = object-put_self clients a c (some c') live;
          inside = refl;
          signed = signed;
        },
      )
      taken j q (inr (ne, at)) = old b q (v.member b r j q there at)

      member :
          (k : ℕ) (s : Room) (j : ℕ) (q : Pointer)
          → Put rooms b k (some r') s
          → get_elem? s.clients j ≡ some q
          → (q ≡ null) ⊎ ((d : ℕ) × (q ≡ addr d) × IsMember clients' k d)
      member k s j q (inl (e, f)) at =
          subst (λ (m : ℕ). (q ≡ null) ⊎ ((d : ℕ) × (q ≡ addr d) × IsMember clients' m d)) e
            (taken j q (slot j q (ap (λ (y : Room). get_elem? y.clients j) (some_eq f) ∙ at)))
      member k s j q (inr (ne, f)) at = old k q (v.member k s j q f at)
