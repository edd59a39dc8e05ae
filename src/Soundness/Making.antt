-- ===== src/Soundness/Making.antt =====
-- A client makes a room, and everything still fits together.
use lso_server.Base.{
  ℕ, ◌≡◌, ◌≢◌, refl, ap, sym, subst, ◌∙◌, ◌⊎◌, inl, inr, List, [], ◌∷◌, ◌++◌, Option, some, length,
  get_elem?,
}
use lso_server.World.{Pointer, null, addr, Client, Room, object, put_object}
use lso_server.World.Heap.{
  object-put_self, object-put_ne, object-Put, Put, object-malloc_self, object-malloc_forth,
  object-malloc_back,
}
use lso_server.Soundness.{IsSigned, IsName, IsHouse, IsMember, Stands, Housed}
use lso_server.Soundness.Heaps.{some_eq}

-- The client `c` at `addr a`, in no room, makes the room `r`, whose only member it is.
module _ (clients : List (Option Client)) (rooms : List (Option Room)) (v : Housed clients rooms)
    (a i : ℕ) (c : Client) (r : Room) (live : object clients (addr a) ≡ some c)
    (alone : c.room ≡ null) (signed : IsSigned c.user.name) (made : IsHouse r)
    (at : get_elem? r.clients i ≡ some (addr a))
    (only : (j : ℕ) (q : Pointer)
      → get_elem? r.clients j ≡ some q
      → (q ≡ null) ⊎ (q ≡ addr a)) where
  abbrev c' : Client
  c' = record c { room = addr (length rooms) }

  abbrev clients' : List (Option Client)
  clients' = put_object clients (addr a) (some c')

  carried : (k d : ℕ) → IsMember clients k d → IsMember clients' k d
  carried k d m = record {
    client = m.client;
    live = object-put_ne clients a d (some c') other ∙ m.live;
    inside = m.inside;
    signed = m.signed;
  }
    where
      clash : null ≡ addr k → ⊥
      clash e = cc

      other : a ≢ d
      other e = clash (
          sym alone
          ∙ ap (λ (x : Client). x.room)
              (some_eq (sym live ∙ ap (λ (n : ℕ). object clients (addr n)) e ∙ m.live))
          ∙ m.inside)

  pub Housed-make : Housed clients' (rooms ++ some r ∷ [])
  Housed-make = record {
    named = λ d x e. name d x (object-Put clients a d c (some c') x live e);
    stands = λ d x e. stand d x (object-Put clients a d c (some c') x live e);
    house = λ k s e. house k s (object-malloc_back rooms r s k e);
    member = λ k s j q e h. member k s j q (object-malloc_back rooms r s k e) h;
  }
    where
      name : (d : ℕ) (x : Client) → Put clients a d (some c') x → IsName x.user.name
      name d x (inl (e, f)) =
          subst (λ (y : Client). IsName y.user.name) (some_eq f) (v.named a c live)
      name d x (inr (ne, f)) = v.named d x f

      old : (d : ℕ) (x : Client) → Stands rooms d x → Stands (rooms ++ some r ∷ []) d x
      old d x (inl e) = inl e
      old d x (inr (k, s, j, e, f, h)) = inr (k, s, j, e, object-malloc_forth rooms r s k f, h)

      stand : (d : ℕ) (x : Client) → Put clients a d (some c') x → Stands (rooms ++ some r ∷ []) d x
      stand d x (inl (e, f)) = inr (
        length rooms,
        r,
        i,
        ap (λ (y : Client). y.room) (sym (some_eq f)),
        object-malloc_self rooms r,
        at ∙ ap (λ (n : ℕ). some (addr n)) e,
      )
      stand d x (inr (ne, f)) = old d x (v.stands d x f)

      New : ℕ → Room → Type 0
      New k s = ((k ≡ length rooms) × (r ≡ s)) ⊎ (object rooms (addr k) ≡ some s)

      house : (k : ℕ) (s : Room) → New k s → IsHouse s
      house k s (inl (e, f)) = subst IsHouse f made
      house k s (inr f) = v.house k s f

      Leads : ℕ → Pointer → Type 0
      Leads k q = (q ≡ null) ⊎ ((d : ℕ) × (q ≡ addr d) × IsMember clients' k d)

      still :
          (k : ℕ) (q : Pointer)
          → (q ≡ null) ⊎ ((d : ℕ) × (q ≡ addr d) × IsMember clients k d)
          → Leads k q
      still k q (inl e) = inl e
      still k q (inr (d, e, m)) = inr (d, e, carried k d m)

      maker : (q : Pointer) → (q ≡ null) ⊎ (q ≡ addr a) → Leads (length rooms) q
      maker q (inl e) = inl e
      maker q (inr e) = inr (
        a,
        e,
        record {
          client = c';
          live = object-put_self clients a c (some c') live;
          inside = refl;
          signed = signed;
        },
      )

      member :
          (k : ℕ) (s : Room) (j : ℕ) (q : Pointer)
          → New k s
          → get_elem? s.clients j ≡ some q
          → Leads k q
      member k s j q (inl (e, f)) h =
          subst (λ (m : ℕ). Leads m q) (sym e)
            (maker q (only j q (ap (λ (y : Room). get_elem? y.clients j) f ∙ h)))
      member k s j q (inr f) h = still k q (v.member k s j q f h)
