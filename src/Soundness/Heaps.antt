-- ===== src/Soundness/Heaps.antt =====
-- Rooms and members that fit together, after an assignment to a client, an allocation or a free.
use lso_server.Base.{ℕ, ◌≡◌, ap, sym, subst, ◌∙◌, ◌⊎◌, inl, inr, List, Option, some, ℕ_discrete}
use lso_server.World.{
  Pointer, null, addr, CString, no_string, wild_string, string, Client, Room, object, put_object,
}
use lso_server.World.Heap.{object-put_self, object-put_ne, object-Put, Put}
use lso_server.Soundness.{IsSigned, IsName, IsMember, Stands, Housed}

pub some_eq : {A : Type 0} {x y : A} → some x ≡ some y → x ≡ y
some_eq e = cc

pub signed-IsName : (s : CString) → IsSigned s → IsName s
signed-IsName no_string h = absurd h
signed-IsName wild_string h = h
signed-IsName (string m) h = h

pub addr_eq : {a b : ℕ} → addr a ≡ addr b → a ≡ b
addr_eq e = cc

module _ (clients : List (Option Client)) (rooms : List (Option Room)) (v : Housed clients rooms)
    (a : ℕ) (c : Client) (live : object clients (addr a) ≡ some c) where
  -- The same client with another user, who is signed in.
  module _ (c' : Client) (same : c'.room ≡ c.room) (signed : IsSigned c'.user.name) where
    abbrev after : List (Option Client)
    after = put_object clients (addr a) (some c')

    IsMember-after : (b k : ℕ) → IsMember clients b k → IsMember after b k
    IsMember-after b k m = elim (ℕ_discrete a k) [
      | yes e ↦ record {
        client = c';
        live =
            ap (λ (n : ℕ). object after (addr n)) (sym e)
            ∙ object-put_self clients a c (some c') live;
        inside =
            same
            ∙ ap (λ (x : Client). x.room)
                (some_eq (sym live ∙ ap (λ (n : ℕ). object clients (addr n)) e ∙ m.live))
            ∙ m.inside;
        signed = signed;
      }
      | no ne ↦ record {
        client = m.client;
        live = object-put_ne clients a k (some c') ne ∙ m.live;
        inside = m.inside;
        signed = m.signed;
      }
    ]

    pub Housed-put_user : Housed after rooms
    Housed-put_user = record {
      named = λ k d e. name k d (object-Put clients a k c (some c') d live e);
      stands = λ k d e. stand k d (object-Put clients a k c (some c') d live e);
      house = v.house;
      member = λ b r i q e at. slot b q (v.member b r i q e at);
    }
      where
        name : (k : ℕ) (d : Client) → Put clients a k (some c') d → IsName d.user.name
        name k d (inl (e, f)) =
            subst (λ (x : Client). IsName x.user.name) (some_eq f)
              (signed-IsName c'.user.name signed)
        name k d (inr (ne, f)) = v.named k d f

        stand : (k : ℕ) (d : Client) → Put clients a k (some c') d → Stands rooms k d
        stand k d (inl (e, f)) = subst (λ (n : ℕ). Stands rooms n d) e (moved (v.stands a c live))
          where
            moved : Stands rooms a c → Stands rooms a d
            moved (inl h) = inl (ap (λ (x : Client). x.room) (sym (some_eq f)) ∙ same ∙ h)
            moved (inr (b, r, i, h, there, at)) =
                inr (b, r, i, ap (λ (x : Client). x.room) (sym (some_eq f)) ∙ same ∙ h, there, at)
        stand k d (inr (ne, f)) = v.stands k d f

        slot :
            (b : ℕ) (q : Pointer)
            → (q ≡ null) ⊎ ((k : ℕ) × (q ≡ addr k) × IsMember clients b k)
            → (q ≡ null) ⊎ ((k : ℕ) × (q ≡ addr k) × IsMember after b k)
        slot b q (inl e) = inl e
        slot b q (inr (k, e, m)) = inr (k, e, IsMember-after b k m)
