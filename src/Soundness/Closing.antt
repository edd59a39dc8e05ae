-- ===== src/Soundness/Closing.antt =====
-- A room is closed, and everything still fits together.
use lso_server.Base.{
  ℕ, ◌≡◌, ◌≢◌, ap, sym, subst, ◌∙◌, ◌⊎◌, inl, inr, List, Option, some, none, ℕ_discrete, get_elem?,
}
use lso_server.World.{Pointer, null, addr, User, Client, Room, object, put_object}
use lso_server.World.Heap.{object-put_ne, object-Put, Put}
use lso_server.Handlers.Released.{released, released-IsAlone}
use lso_server.Handlers.Unmoved.{Before, released-other, released-Before}
use lso_server.Soundness.{IsName, IsHouse, IsMember, Stands, Housed}
use lso_server.Soundness.Heaps.{some_eq, addr_eq}

-- All clients that are in the room `r` at `addr b` are put out of it.
module _ (clients : List (Option Client)) (rooms : List (Option Room)) (v : Housed clients rooms)
    (b : ℕ) (r : Room) (there : object rooms (addr b) ≡ some r) (ps : List Pointer)
    (all : (k : ℕ) (x : Client)
      → object clients (addr k) ≡ some x
      → x.room ≡ addr b
      → (j : ℕ) × (get_elem? ps j ≡ some (addr k)))
    (only : (j k : ℕ) → get_elem? ps j ≡ some (addr k) → IsMember clients b k) where
  abbrev clients' : List (Option Client)
  clients' = released clients ps

  abbrev rooms' : List (Option Room)
  rooms' = put_object rooms (addr b) none

  carried : (k d : ℕ) → b ≢ k → IsMember clients k d → IsMember clients' k d
  carried k d ne m = record {
    client = m.client;
    live = released-other clients ps d absent ∙ m.live;
    inside = m.inside;
    signed = m.signed;
  }
    where
      absent : (j : ℕ) → get_elem? ps j ≢ some (addr d)
      absent j e =
          let m' = only j d e in
          ne (
            addr_eq (
              sym m'.inside
              ∙ ap (λ (x : Client). x.room) (some_eq (sym m'.live ∙ m.live))
              ∙ m.inside))

  elsewhere :
      (d : ℕ) (x c : Client)
      → object clients' (addr d) ≡ some x
      → object clients (addr d) ≡ some c
      → x.room ≡ c.room
      → Stands rooms d c
      → Stands rooms' d x
  elsewhere d x c e live same (inl f) = inl (same ∙ f)
  elsewhere d x c e live same (inr (k, s, j, f, g, at)) = elim (ℕ_discrete b k) [
    | yes h ↦
        let (i, listed) = all d c live (f ∙ ap addr (sym h)) in
        inl (released-IsAlone clients ps i d listed x e)
    | no ne ↦ inr (k, s, j, same ∙ f, object-put_ne rooms b k none ne ∙ g, at)
  ]

  pub Housed-close : Housed clients' rooms'
  Housed-close = record {
    named = λ d x e. name d x (released-Before clients ps d x e);
    stands = λ d x e. stand d x e (released-Before clients ps d x e);
    house = λ k s e. house k s (object-Put rooms b k r none s there e);
    member = λ k s j q e at. member k s j q (object-Put rooms b k r none s there e) at;
  }
    where
      name : (d : ℕ) (x : Client) → Before clients d x → IsName x.user.name
      name d x (c, live, user, room) =
          subst (λ (u : User). IsName u.name) (sym user) (v.named d c live)

      stand :
          (d : ℕ) (x : Client)
          → object clients' (addr d) ≡ some x
          → Before clients d x
          → Stands rooms' d x
      stand d x e (c, live, user, inl out) = inl out
      stand d x e (c, live, user, inr same) = elsewhere d x c e live same (v.stands d c live)

      house : (k : ℕ) (s : Room) → Put rooms b k none s → IsHouse s
      house k s (inl (e, f)) = cc
      house k s (inr (ne, f)) = v.house k s f

      still :
          (k : ℕ) (q : Pointer)
          → b ≢ k
          → (q ≡ null) ⊎ ((d : ℕ) × (q ≡ addr d) × IsMember clients k d)
          → (q ≡ null) ⊎ ((d : ℕ) × (q ≡ addr d) × IsMember clients' k d)
      still k q ne (inl e) = inl e
      still k q ne (inr (d, e, m)) = inr (d, e, carried k d ne m)

      member :
          (k : ℕ) (s : Room) (j : ℕ) (q : Pointer)
          → Put rooms b k none s
          → get_elem? s.clients j ≡ some q
          → (q ≡ null) ⊎ ((d : ℕ) × (q ≡ addr d) × IsMember clients' k d)
      member k s j q (inl (e, f)) at = cc
      member k s j q (inr (ne, f)) at = still k q ne (v.member k s j q f at)
