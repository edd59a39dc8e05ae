-- ===== src/Invariant/Removal.antt =====
-- The pool when a client leaves (`client_pool_remove`, the end of `client_handler`).
use lso_server.Base.{
  ℕ, ◌+◌, ◌<◌, ◌≡◌, ◌≢◌, refl, ap, sym, ◌∙◌, ◌⊎◌, inl, inr, List, Option, some, none, pos, ok, true,
  arith, ℕ_discrete, length, get_elem?, set, ◌-ℤ◌, pos--ℤ, get_elem?-lt, length-set,
}
use lso_server.World.{Pointer, null, addr, Client, Pool, World, object, put_object}
use lso_server.World.Heap.{object-put_ne, object-put_self}
use lso_server.World.Laws.{get_client-live, free_client-live}
use lso_server.ClientPool.{find_index_in_client_pool, client_pool_remove}
use lso_server.Server.{disconnect}
use lso_server.Server.Farewell.{Printable, print_left-Printable}
use lso_server.Invariant.Uids.{slot-client, find_uid-slot}
use lso_server.Invariant.{IsPool, IsUids, Inv, occupied}
use lso_server.Invariant.Slots.{occupied-set_out, set-slot-cases}

-- The state without the client at `a`, which stood in the slot `j`.
abbrev pub removed : World → ℕ → World
removed w j = record w {
  pool = record { clients = set w.pool.clients j null; size = w.pool.size -ℤ pos 1 };
}

-- In a state that satisfies the invariant, a client that stands in the pool is taken out of its
-- slot, `size` shrinks by 1, and no other slot changes.
pub client_pool_remove-removed :
    (w : World) (a j : ℕ)
    → Inv w
    → get_elem? w.pool.clients j ≡ some (addr a)
    → client_pool_remove (addr a) w ≡ ok (true, removed w j)
unfolding client_pool_remove find_index_in_client_pool
client_pool_remove-removed w a j v at =
    let (c, live) = slot-client w a (v.pool.member j (addr a) at) in
    rw (find_uid-slot w v a c live w.pool.clients 0 j v.pool.member at earlier)
      (ap (λ (n : ℕ). ok (true, removed w n)) {x = 0 + j} (omega arith))
  where
    earlier : (k : ℕ) → k < j → get_elem? w.pool.clients k ≢ some (addr a)
    earlier k h e = absurd (omega (arith, v.pool.distinct k j a e at))

-- The state without the client at `a`, which stood in the slot `j`.
abbrev pub departed : World → ℕ → ℕ → World
departed w a j = record (removed w j) { clients = put_object w.clients (addr a) none }

module _ (clients : List (Option Client)) (a : ℕ) (c : Client)
    (live : object clients (addr a) ≡ some c) where
  -- What is left on the heap was there before, elsewhere.
  object-freed :
      (b : ℕ) (d : Client)
      → object (put_object clients (addr a) none) (addr b) ≡ some d
      → object clients (addr b) ≡ some d
  object-freed b d e = elim (ℕ_discrete a b) [
    | yes same ↦ absurd (
        gone (
          sym (object-put_self clients a c none live)
          ∙ ap (λ (n : ℕ). object (put_object clients (addr a) none) (addr n)) same
          ∙ e))
    | no ne ↦ sym (object-put_ne clients a b none ne) ∙ e
  ]
    where
      gone : none ≡ some d → ⊥
      gone h = cc

  pub IsUids-freed : (n : ℕ) → IsUids clients n → IsUids (put_object clients (addr a) none) n
  IsUids-freed n v = record {
    below = λ b d e. v.below b d (object-freed b d e);
    distinct = λ b k d d' e e'. v.distinct b k d d' (object-freed b d e) (object-freed k d' e');
  }

module _ (p : Pool) (clients : List (Option Client)) (v : IsPool p clients) (a j : ℕ)
    (at : get_elem? p.clients j ≡ some (addr a)) where
  inside : j < length p.clients
  inside = get_elem?-lt p.clients j (addr a) at

  abbrev Left : ℕ → Pointer → Type 0
  Left i q = ((i ≡ j) × (q ≡ null)) ⊎ ((i ≢ j) × (get_elem? p.clients i ≡ some q))

  member-Left :
      (i : ℕ) (q : Pointer)
      → Left i q
      → (q ≡ null) ⊎ ((b : ℕ) × (d : Client) × (q ≡ addr b) × (object clients (addr b) ≡ some d))
  member-Left i q (inl (e, f)) = inl f
  member-Left i q (inr (ne, e)) = v.member i q e

  distinct-Left : (i k b : ℕ) → Left i (addr b) → Left k (addr b) → i ≡ k
  distinct-Left i k b (inl (e, f)) h = cc
  distinct-Left i k b (inr g) (inl (e, f)) = cc
  distinct-Left i k b (inr (ne, e)) (inr (ne', e')) = v.distinct i k b e e'

  pub IsPool-vacated :
      IsPool (record { clients = set p.clients j null; size = p.size -ℤ pos 1 }) clients
  IsPool-vacated = record {
    slots = length-set p.clients j null ∙ v.slots;
    counted =
        ap (λ z. z -ℤ pos 1) v.counted
        ∙ ap (λ (n : ℕ). pos n -ℤ pos 1) (occupied-set_out p.clients j (addr a) at refl)
        ∙ pos--ℤ (occupied (set p.clients j null) + 1) 1 (omega arith)
        ∙ ap pos (omega arith);
    member = λ i q e. member-Left i q (set-slot-cases p.clients j i null q inside e);
    distinct = λ i k b e f.
        distinct-Left i k b (set-slot-cases p.clients j i null (addr b) inside e)
          (set-slot-cases p.clients j k null (addr b) inside f);
  }

  -- The client stands in no slot afterwards.
  pub vacated-Outsider : (i : ℕ) → get_elem? (set p.clients j null) i ≢ some (addr a)
  vacated-Outsider i e = other (set-slot-cases p.clients j i null (addr a) inside e)
    where
      other : Left i (addr a) → ⊥
      other (inl (e, f)) = cc
      other (inr (ne, f)) = ne (v.distinct i j a f at)

-- A client that stands in no slot is freed.
pub IsPool-freed :
    (p : Pool) (clients : List (Option Client)) (a : ℕ)
    → IsPool p clients
    → ((i : ℕ) → get_elem? p.clients i ≢ some (addr a))
    → IsPool p (put_object clients (addr a) none)
IsPool-freed p clients a v outside = record {
  slots = v.slots;
  counted = v.counted;
  member = λ i q e. kept i q e (v.member i q e);
  distinct = v.distinct;
}
  where
    kept :
        (i : ℕ) (q : Pointer)
        → get_elem? p.clients i ≡ some q
        → (q ≡ null) ⊎ ((b : ℕ) × (d : Client) × (q ≡ addr b) × (object clients (addr b) ≡ some d))
        → (q ≡ null)
          ⊎ ((b : ℕ) × (d : Client) × (q ≡ addr b)
              × (object (put_object clients (addr a) none) (addr b) ≡ some d))
    kept i q e (inl f) = inl f
    kept i q e (inr (b, d, f, live)) = inr (
      b,
      d,
      f,
      object-put_ne clients a b none (λ same. outside i (e ∙ ap some (f ∙ ap addr (sym same))))
          ∙ live,
    )

module _ (w : World) (a j : ℕ) (v : Inv w) (at : get_elem? w.pool.clients j ≡ some (addr a)) where
  pub Inv-departed : Inv (departed w a j)
  Inv-departed =
      let (c, live) = slot-client w a (v.pool.member j (addr a) at) in
      record {
        pool =
            IsPool-freed (removed w j).pool w.clients a
              (IsPool-vacated w.pool w.clients v.pool a j at)
              (vacated-Outsider w.pool w.clients v.pool a j at);
        uids = IsUids-freed w.clients a c live w.counter_client v.uids;
        table = v.table;
      }

  -- In a state that satisfies the invariant, a client of the pool that is in no room and has a name that can be printed, or none, leaves: its
  -- slot is empty afterwards, its object is freed, nothing else changes, and the invariant holds
  -- again.
  pub disconnect-departed :
      (c : Client)
      → object w.clients (addr a) ≡ some c
      → c.room ≡ null
      → Printable c.user.name
      → (disconnect (addr a) w ≡ ok (tt, departed w a j)) × Inv (departed w a j)
  unfolding disconnect
  disconnect-departed c live alone printable = (
    rw (
      get_client-live (addr a) w c live,
      alone,
      get_client-live (addr a) w c live,
      print_left-Printable c.user.name w printable,
      client_pool_remove-removed w a j v at,
      free_client-live (addr a) (removed w j) c live,
    ),
    Inv-departed,
  )
