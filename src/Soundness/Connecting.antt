-- ===== src/Soundness/Connecting.antt =====
-- A client connects, or one that is in no room goes, and everything still fits together.
use lso_server.Base.{
  ℕ, ◌≡◌, ◌≢◌, ap, sym, subst, ◌∙◌, ◌⊎◌, inl, inr, List, [], ◌∷◌, ◌++◌, Option, some, none, length,
}
use lso_server.World.{Pointer, null, addr, Client, Room, object, put_object}
use lso_server.World.Heap.{object-put_ne, object-Put, Put, object-malloc_forth, object-malloc_back}
use lso_server.Soundness.{IsName, IsMember, Stands, Housed}
use lso_server.Soundness.Heaps.{some_eq}

module _ (clients : List (Option Client)) (rooms : List (Option Room)) (v : Housed clients rooms)
    (c : Client) (alone : c.room ≡ null) where
  -- Nothing changes but the heap of clients, in which the members stay.
  Housed-clients :
      (clients' : List (Option Client))
      → ((a : ℕ) (x : Client)
          → object clients' (addr a) ≡ some x
          → (c ≡ x) ⊎ (object clients (addr a) ≡ some x))
      → IsName c.user.name
      → ((b a : ℕ) → IsMember clients b a → IsMember clients' b a)
      → Housed clients' rooms
  Housed-clients clients' back named forth = record {
    named = λ a x e. name a x (back a x e);
    stands = λ a x e. stand a x (back a x e);
    house = v.house;
    member = λ b r i q e at. member b q (v.member b r i q e at);
  }
    where
      name :
          (a : ℕ) (x : Client) → (c ≡ x) ⊎ (object clients (addr a) ≡ some x) → IsName x.user.name
      name a x (inl e) = subst (λ (y : Client). IsName y.user.name) e named
      name a x (inr e) = v.named a x e

      stand : (a : ℕ) (x : Client) → (c ≡ x) ⊎ (object clients (addr a) ≡ some x) → Stands rooms a x
      stand a x (inl e) = inl (ap (λ (y : Client). y.room) (sym e) ∙ alone)
      stand a x (inr e) = v.stands a x e

      member :
          (b : ℕ) (q : Pointer)
          → (q ≡ null) ⊎ ((a : ℕ) × (q ≡ addr a) × IsMember clients b a)
          → (q ≡ null) ⊎ ((a : ℕ) × (q ≡ addr a) × IsMember clients' b a)
      member b q (inl e) = inl e
      member b q (inr (a, e, m)) = inr (a, e, forth b a m)

  pub Housed-connect : IsName c.user.name → Housed (clients ++ some c ∷ []) rooms
  Housed-connect named =
      Housed-clients (clients ++ some c ∷ [])
        (λ a x e. back a x (object-malloc_back clients c x a e)) named forth
    where
      back :
          (a : ℕ) (x : Client)
          → ((a ≡ length clients) × (c ≡ x)) ⊎ (object clients (addr a) ≡ some x)
          → (c ≡ x) ⊎ (object clients (addr a) ≡ some x)
      back a x (inl (e, f)) = inl f
      back a x (inr f) = inr f

      forth : (b a : ℕ) → IsMember clients b a → IsMember (clients ++ some c ∷ []) b a
      forth b a m = record {
        client = m.client;
        live = object-malloc_forth clients c m.client a m.live;
        inside = m.inside;
        signed = m.signed;
      }

  pub Housed-free :
      (a : ℕ) → object clients (addr a) ≡ some c → Housed (put_object clients (addr a) none) rooms
  Housed-free a live =
      Housed-clients (put_object clients (addr a) none)
        (λ d x e. back d x (object-Put clients a d c none x live e)) (v.named a c live) forth
    where
      back :
          (d : ℕ) (x : Client)
          → Put clients a d none x
          → (c ≡ x) ⊎ (object clients (addr d) ≡ some x)
      back d x (inl (e, f)) = cc
      back d x (inr (ne, f)) = inr f

      forth : (b d : ℕ) → IsMember clients b d → IsMember (put_object clients (addr a) none) b d
      forth b d m = record {
        client = m.client;
        live = object-put_ne clients a d none other ∙ m.live;
        inside = m.inside;
        signed = m.signed;
      }
        where
          clash : null ≡ addr b → ⊥
          clash e = cc

          other : a ≢ d
          other e = clash (
              sym alone
              ∙ ap (λ (x : Client). x.room)
                  (some_eq (sym live ∙ ap (λ (n : ℕ). object clients (addr n)) e ∙ m.live))
              ∙ m.inside)
