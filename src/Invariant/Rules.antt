-- ===== src/Invariant/Rules.antt =====
-- The invariant under an assignment to a client, and under what it does not speak of.
use lso_server.Base.{
  ℕ, ◌<◌, ◌≡◌, refl, ap, sym, subst, ◌∙◌, ◌⊎◌, inl, inr, List, Option, some, ℕ_discrete,
}
use lso_server.World.{Pointer, null, wild, addr, Client, Pool, World, object, put_object}
use lso_server.World.Heap.{object-put_self, object-put_ne}
use lso_server.Invariant.{IsPool, IsUids, Inv}

-- The same addresses hold a client, each with its uid.
pub record SameClients (old new : List (Option Client)) : Type 0 where
  pub back :
      (a : ℕ) (d : Client)
      → object new (addr a) ≡ some d
      → (c : Client) × (object old (addr a) ≡ some c) × (c.uid ≡ d.uid)
  pub forth :
      (a : ℕ) (c : Client)
      → object old (addr a) ≡ some c
      → (d : Client) × (object new (addr a) ≡ some d)

module _ (old new : List (Option Client)) (same : SameClients old new) where
  IsUids-same : (n : ℕ) → IsUids old n → IsUids new n
  IsUids-same n v = record {
    below = λ a d e. let (c, f, u) = same.back a d e in subst (λ (k : ℕ). k < n) u (v.below a c f);
    distinct = λ a b d d' e e' u.
        let (c, f, p) = same.back a d e in
        let (c', f', p') = same.back b d' e' in v.distinct a b c c' f f' (p ∙ u ∙ sym p');
  }

  IsPool-same : (p : Pool) → IsPool p old → IsPool p new
  IsPool-same p v = record {
    slots = v.slots;
    counted = v.counted;
    member = λ i q e. carried (v.member i q e);
    distinct = v.distinct;
  }
    where
      carried :
          {q : Pointer}
          → (q ≡ null) ⊎ ((a : ℕ) × (c : Client) × (q ≡ addr a) × (object old (addr a) ≡ some c))
          → (q ≡ null) ⊎ ((a : ℕ) × (c : Client) × (q ≡ addr a) × (object new (addr a) ≡ some c))
      carried (inl e) = inl e
      carried (inr (a, c, e, f)) = let (d, g) = same.forth a c f in inr (a, d, e, g)

some_uid : (c d : Client) → some c ≡ some d → c.uid ≡ d.uid
some_uid c d e = cc

SameClients-put_addr :
    (heap : List (Option Client)) (a : ℕ) (c c' : Client)
    → object heap (addr a) ≡ some c
    → c'.uid ≡ c.uid
    → SameClients heap (put_object heap (addr a) (some c'))
SameClients-put_addr heap a c c' e u = record { back = back; forth = forth }
  where
    back :
        (b : ℕ) (d : Client)
        → object (put_object heap (addr a) (some c')) (addr b) ≡ some d
        → (x : Client) × (object heap (addr b) ≡ some x) × (x.uid ≡ d.uid)
    back b d f = elim (ℕ_discrete a b) [
      | yes p ↦ (
        c,
        ap (λ (k : ℕ). object heap (addr k)) (sym p) ∙ e,
        sym u
            ∙ some_uid c' d (
                sym (object-put_self heap a c (some c') e)
                ∙ ap (λ (k : ℕ). object (put_object heap (addr a) (some c')) (addr k)) p
                ∙ f),
      )
      | no ne ↦ (d, sym (object-put_ne heap a b (some c') ne) ∙ f, refl)
    ]

    forth :
        (b : ℕ) (x : Client)
        → object heap (addr b) ≡ some x
        → (d : Client) × (object (put_object heap (addr a) (some c')) (addr b) ≡ some d)
    forth b x f = elim (ℕ_discrete a b) [
      | yes p ↦ (
        c',
        ap (λ (k : ℕ). object (put_object heap (addr a) (some c')) (addr k)) (sym p)
            ∙ object-put_self heap a c (some c') e,
      )
      | no ne ↦ (x, object-put_ne heap a b (some c') ne ∙ f)
    ]

pub SameClients-put :
    (heap : List (Option Client)) (p : Pointer) (c c' : Client)
    → object heap p ≡ some c
    → c'.uid ≡ c.uid
    → SameClients heap (put_object heap p (some c'))
SameClients-put heap null c c' e u = cc
SameClients-put heap wild c c' e u = cc
SameClients-put heap (addr a) c c' e u = SameClients-put_addr heap a c c' e u

-- An assignment to a client that keeps its uid.
pub Inv-put_client :
    (w : World) (p : Pointer) (c c' : Client)
    → object w.clients p ≡ some c
    → c'.uid ≡ c.uid
    → Inv w
    → Inv (record w { clients = put_object w.clients p (some c') })
Inv-put_client w p c c' e u v =
    let same = SameClients-put w.clients p c c' e u in
    record {
      pool = IsPool-same w.clients (put_object w.clients p (some c')) same w.pool v.pool;
      uids = IsUids-same w.clients (put_object w.clients p (some c')) same w.counter_client v.uids;
      table = v.table;
    }
