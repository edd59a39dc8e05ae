-- ===== src/Invariant/Leaving.antt =====
-- The invariant and the end of a client's thread: out of the pool, then freed.
use lso_server.Base.{
  ℕ, ◌+◌, ◌≡◌, ◌≢◌, refl, ap, sym, subst, ◌∙◌, ◌⊎◌, inl, inr, Option, Option-cases, none, some,
  true, false, arith, get_elem?, ◌==◌,
}
use lso_server.World.{Pointer, null, wild, addr, Client, World, ◌>>=◌, object, free_client}
use lso_server.World.Heap.{object-put_self}
use lso_server.World.Laws.{Ends, Ends-bind, free_client-live, free_client-dead}
use lso_server.ClientPool.{find_uid, find_index_in_client_pool, client_pool_remove, vacate}
use lso_server.Invariant.{Inv}
use lso_server.Invariant.Search.{Uses, Found, Finds, find_uid-Finds}
use lso_server.Invariant.Uids.{same_uid}
use lso_server.Invariant.Removal.{
  removed, IsPool-vacated, vacated-Outsider, IsPool-freed, IsUids-freed,
}

-- The pool does not lead to `p`.
abbrev pub Outsider : Pointer → World → Type 0
Outsider p w = (i : ℕ) → get_elem? w.pool.clients i ≢ some p

different : (m n : ℕ) → m ≡ n → (m == n) ≡ false → ⊥
different m n e h = ground arith

same_client : {c d : Client} → some c ≡ some d → d.uid ≡ c.uid
same_client e = cc

-- The invariant holds, the pool does not lead to `addr a`, and at most its slot was emptied: the
-- rest of the pool, the counter of clients and what lies outside are as in `w`.
pub record Gone (a : ℕ) (w w' : World) : Type 0 where
  pub inv : Inv w'
  pub outsider : Outsider (addr a) w'
  pub shape :
      (w'.pool ≡ w.pool)
      ⊎ ((j : ℕ) × (get_elem? w.pool.clients j ≡ some (addr a)) × (w'.pool ≡ (removed w j).pool))
  pub counter : w'.counter_client ≡ w.counter_client
  pub outside : w'.outside ≡ w.outside

vacated-Left :
    (w : World) (a i : ℕ)
    → Inv w
    → get_elem? w.pool.clients i ≡ some (addr a)
    → Gone a w (removed w i)
vacated-Left w a i v at = record {
  inv = record {
    pool = IsPool-vacated w.pool w.clients v.pool a i at;
    uids = v.uids;
    table = v.table;
  };
  outsider = vacated-Outsider w.pool w.clients v.pool a i at;
  shape = inr (i, at, refl);
  counter = refl;
  outside = refl;
}

-- A slot with the uid of the client at `a` holds that client.
uid-slot :
    (w : World) (a j : ℕ) (q : Pointer)
    → Inv w
    → get_elem? w.pool.clients j ≡ some q
    → Uses w (addr a) q true
    → get_elem? w.pool.clients j ≡ some (addr a)
uid-slot w a j null v at (c, d, live, there, same) = cc
uid-slot w a j wild v at (c, d, live, there, same) = cc
uid-slot w a j (addr b) v at (c, d, live, there, same) =
    at
    ∙ ap (λ (k : ℕ). some (addr k)) (v.uids.distinct b a d c there live (same_uid d.uid c.uid same))

-- After `client_pool_remove` the pool does not lead to the client.
client_pool_remove-Left :
    (w : World) (a : ℕ) → Inv w → Ends (λ _. Gone a w) (client_pool_remove (addr a) w)
unfolding client_pool_remove find_index_in_client_pool
client_pool_remove-Left w a v =
    Ends-bind (λ _. Gone a w) (find_uid (addr a) w.pool.clients 0 w) vacate
      (Finds w (addr a) w.pool.clients 0) (find_uid-Finds (addr a) w.pool.clients 0 w)
      λ found w' (same, f).
        subst (λ (x : World). Ends (λ _. Gone a w) (vacate found x)) (sym same) (vacated found f)
  where
    vacated :
        (found : Option ℕ)
        → Found w (addr a) w.pool.clients 0 found
        → Ends (λ _. Gone a w) (vacate found w)
    vacated none (inl (e, others)) = record {
      inv = v;
      outsider = λ i at. absent (others i (addr a) at refl);
      shape = inl refl;
      counter = refl;
      outside = refl;
    }
      where
        absent : Uses w (addr a) (addr a) false → ⊥
        absent (c, d, live, there, other) =
            different d.uid c.uid (same_client (sym live ∙ there)) other
    vacated none (inr (j, q, e, at, used, h)) = cc
    vacated (some i) (inl (e, others)) = cc
    vacated (some i) (inr (j, q, e, at, used, same)) =
        vacated-Left w a i v
          (ap (get_elem? w.pool.clients) (some_index e) ∙ uid-slot w a j q v at same)
      where
        some_index : some i ≡ some (0 + j) → i ≡ j
        some_index h = ground arith

-- That, and the client is freed.
abbrev pub Freed : ℕ → World → World → Type 0
Freed a w w' = Gone a w w' × (object w'.clients (addr a) ≡ none)

free_client-Freed :
    (w w' : World) (a : ℕ) → Gone a w w' → Ends (λ _. Freed a w) (free_client (addr a) w')
free_client-Freed w w' a v = elim (Option-cases (object w'.clients (addr a))) [
  | inl e ↦ rw (free_client-dead (addr a) w' e) tt
  | inr (c, e) ↦ rw (free_client-live (addr a) w' c e) (
    record {
      inv = record {
        pool = IsPool-freed w'.pool w'.clients a v.inv.pool v.outsider;
        uids = IsUids-freed w'.clients a c e w'.counter_client v.inv.uids;
        table = v.inv.table;
      };
      outsider = v.outsider;
      shape = v.shape;
      counter = v.counter;
      outside = v.outside;
    },
    object-put_self w'.clients a c none e,
  )
]

-- A client is taken out of the pool and then freed.
pub remove_and_free-Freed :
    (a : ℕ) (w : World)
    → Inv w
    → Ends (λ _. Freed a w) ((client_pool_remove (addr a) >>= λ _. free_client (addr a)) w)
unfolding client_pool_remove
remove_and_free-Freed a w v =
    Ends-bind (λ _. Freed a w) (client_pool_remove (addr a) w) (λ _. free_client (addr a))
      (λ _. Gone a w) (client_pool_remove-Left w a v) λ _ w' g. free_client-Freed w w' a g
