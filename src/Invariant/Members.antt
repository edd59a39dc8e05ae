-- ===== src/Invariant/Members.antt =====
-- The pool when a connection is accepted (server/main.c, `client_create`, `client_pool_add`).
use lso_server.Base.{
  ℕ, ◌+◌, ◌<◌, ◌≡◌, ◌≢◌, refl, ap, sym, ◌∙◌, ◌⊎◌, inl, inr, List, [], ◌∷◌, ◌++◌, Option, some, true,
  false, arith, ℤ, pos, pos-+ℤ, ◌+ℤ◌, eqb_ℤ, ok, length, get_elem?, set, length-set, get_elem?-lt,
  Bool-cases,
}
use lso_server.World.{Pointer, null, addr, User, Client, Pool, World, object, malloc_client}
use lso_server.World.Heap.{object-malloc_self, object-malloc_forth, object-malloc_back, object-lt}
use lso_server.ClientPool.{
  client_pool_add, client_pool_is_full, get_client_pool_empty_index, empty_index, max_clients,
}
use lso_server.Client.{client_create}
use lso_server.Server.{accept_connection}
use lso_server.Invariant.{IsPool, IsUids, Inv, occupied}
use lso_server.Invariant.Slots.{occupied-set_in, empty_index-cases, Search, set-slot-cases}
use lso_server.World.Laws.{Keeps, Ends}

abbrev pub new_client : World → ℤ → User → Client
new_client w connfd raw = record {
  room = null;
  sockfd = connfd;
  uid = w.counter_client;
  user = raw;
}

-- The state after a connection that got the slot `j`.
abbrev pub admitted : World → ℤ → User → ℕ → World
admitted w connfd raw j = record w {
  counter_client = w.counter_client + 1;
  clients = w.clients ++ some (new_client w connfd raw) ∷ [];
  pool = record {
    clients = set w.pool.clients j (addr (length w.clients));
    size = w.pool.size +ℤ pos 1;
  };
}

-- The two outcomes of a connection.
abbrev pub Accepted : World → ℤ → User → Type 0
Accepted w connfd raw =
    ((occupied w.pool.clients ≡ max_clients) × (accept_connection connfd raw w ≡ ok (tt, w)))
    ⊎ ((j : ℕ) × (get_elem? w.pool.clients j ≡ some null)
        × (accept_connection connfd raw w ≡ ok (tt, admitted w connfd raw j)))

full_test : (n : ℕ) (z : ℤ) → z ≡ pos n → eqb_ℤ z (pos max_clients) ≡ true → n ≡ max_clients
full_test n z e h = ground arith

not_full_test : (n : ℕ) (z : ℤ) → z ≡ pos n → eqb_ℤ z (pos max_clients) ≡ false → n ≢ max_clients
not_full_test n z e h = ground arith

-- In a state that satisfies the invariant, a connection is turned away and nothing changes if all
-- 10 slots are in use; otherwise a new client, whose uid is the counter, stands in a slot that was
-- empty, `size` and the counter grow by 1, and nothing else changes.
pub accept_connection-Accepted :
    (w : World) (connfd : ℤ) (raw : User) → Inv w → Accepted w connfd raw
unfolding accept_connection client_pool_is_full client_create malloc_client client_pool_add
    get_client_pool_empty_index
accept_connection-Accepted w connfd raw v =
    elim (Bool-cases (eqb_ℤ w.pool.size (pos max_clients))) [
      | inl full ↦ inl (full_test _ w.pool.size v.pool.counted full, rw full)
      | inr more ↦ slot (empty_index-cases w.pool.clients 0) more
    ]
  where
    slot :
        Search w.pool.clients 0
        → eqb_ℤ w.pool.size (pos max_clients) ≡ false
        → Accepted w connfd raw
    slot (inl (e, f)) more =
        absurd (not_full_test _ w.pool.size v.pool.counted more (f ∙ v.pool.slots))
    slot (inr (j, e, f)) more =
        let found : empty_index w.pool.clients 0 ≡ some j = e ∙ ap some (omega arith) in
        inr (j, f, rw (more, found))

-- A client whose uid is the counter, which is counted up.
pub IsUids-malloc :
    (clients : List (Option Client)) (n : ℕ) (c : Client)
    → c.uid ≡ n
    → IsUids clients n
    → IsUids (clients ++ some c ∷ []) (n + 1)
IsUids-malloc clients n c u v = record {
  below = λ a d e. bound d (object-malloc_back clients c d a e) (v.below a d);
  distinct = λ a b d d' e e' s.
      apart (object-malloc_back clients c d a e) (object-malloc_back clients c d' b e')
        (v.below a d) (v.below b d') (v.distinct a b d d') s;
}
  where
    bound :
        {a : ℕ} (d : Client)
        → ((a ≡ length clients) × (c ≡ d)) ⊎ (object clients (addr a) ≡ some d)
        → (object clients (addr a) ≡ some d → d.uid < n)
        → d.uid < n + 1
    bound d (inl (e, f)) h = omega (arith, ap (λ (x : Client). x.uid) f)
    bound d (inr f) h = omega (arith, h f)

    apart :
        {a b : ℕ} {d d' : Client}
        → ((a ≡ length clients) × (c ≡ d)) ⊎ (object clients (addr a) ≡ some d)
        → ((b ≡ length clients) × (c ≡ d')) ⊎ (object clients (addr b) ≡ some d')
        → (object clients (addr a) ≡ some d → d.uid < n)
        → (object clients (addr b) ≡ some d' → d'.uid < n)
        → (object clients (addr a) ≡ some d
            → object clients (addr b) ≡ some d'
            → d.uid ≡ d'.uid
            → a ≡ b)
        → d.uid ≡ d'.uid
        → a ≡ b
    apart (inl (e, f)) (inl (e', f')) h h' same s = e ∙ sym e'
    apart (inl (e, f)) (inr g') h h' same s =
        absurd (omega (arith, ap (λ (x : Client). x.uid) f, h' g'))
    apart (inr g) (inl (e', f')) h h' same s =
        absurd (omega (arith, ap (λ (x : Client). x.uid) f', h g))
    apart (inr g) (inr g') h h' same s = same g g' s

addr_injective : (a b : ℕ) → addr a ≡ addr b → a ≡ b
addr_injective a b e = cc

-- A client of the pool is among those that were allocated.
pub pool-lt :
    (p : Pool) (clients : List (Option Client))
    → IsPool p clients
    → (i a : ℕ) → get_elem? p.clients i ≡ some (addr a)
    → a < length clients
pool-lt p clients v i a e = bound (v.member i (addr a) e)
  where
    bound :
        (addr a ≡ null)
          ⊎ ((b : ℕ) × (d : Client) × (addr a ≡ addr b) × (object clients (addr b) ≡ some d))
        → a < length clients
    bound (inl e) = cc
    bound (inr (b, d, e, f)) = omega (arith, object-lt clients b d f, addr_injective a b e)

module _ (p : Pool) (clients : List (Option Client)) (c : Client) (j : ℕ) (v : IsPool p clients)
    (empty : get_elem? p.clients j ≡ some null) where
  abbrev new : Pointer
  new = addr (length clients)

  inside : j < length p.clients
  inside = get_elem?-lt p.clients j null empty

  member_after :
      (i : ℕ) (q : Pointer)
      → get_elem? (set p.clients j new) i ≡ some q
      → (q ≡ null)
        ⊎ ((a : ℕ) × (d : Client) × (q ≡ addr a)
            × (object (clients ++ some c ∷ []) (addr a) ≡ some d))
  member_after i q e = cases (set-slot-cases p.clients j i new q inside e) (v.member i q)
    where
      cases :
          ((i ≡ j) × (q ≡ new)) ⊎ ((i ≢ j) × (get_elem? p.clients i ≡ some q))
          → (get_elem? p.clients i ≡ some q
              → (q ≡ null)
                ⊎ ((a : ℕ) × (d : Client) × (q ≡ addr a) × (object clients (addr a) ≡ some d)))
          → (q ≡ null)
            ⊎ ((a : ℕ) × (d : Client) × (q ≡ addr a)
                × (object (clients ++ some c ∷ []) (addr a) ≡ some d))
      cases (inl (e, f)) old = inr (length clients, c, f, object-malloc_self clients c)
      cases (inr (ne, f)) old = carried (old f)
        where
          carried :
              (q ≡ null)
                ⊎ ((a : ℕ) × (d : Client) × (q ≡ addr a) × (object clients (addr a) ≡ some d))
              → (q ≡ null)
                ⊎ ((a : ℕ) × (d : Client) × (q ≡ addr a)
                    × (object (clients ++ some c ∷ []) (addr a) ≡ some d))
          carried (inl e) = inl e
          carried (inr (a, d, e, f)) = inr (a, d, e, object-malloc_forth clients c d a f)

  distinct_after :
      (i k a : ℕ)
      → get_elem? (set p.clients j new) i ≡ some (addr a)
      → get_elem? (set p.clients j new) k ≡ some (addr a)
      → i ≡ k
  distinct_after i k a e f =
      cases (set-slot-cases p.clients j i new (addr a) inside e)
        (set-slot-cases p.clients j k new (addr a) inside f)
    where
      cases :
          ((i ≡ j) × (addr a ≡ new)) ⊎ ((i ≢ j) × (get_elem? p.clients i ≡ some (addr a)))
          → ((k ≡ j) × (addr a ≡ new)) ⊎ ((k ≢ j) × (get_elem? p.clients k ≡ some (addr a)))
          → i ≡ k
      cases (inl (e, f)) (inl (e', f')) = e ∙ sym e'
      cases (inl (e, f)) (inr (ne, g)) =
          absurd (omega (arith, pool-lt p clients v k a g, addr_injective a (length clients) f))
      cases (inr (ne, g)) (inl (e, f)) =
          absurd (omega (arith, pool-lt p clients v i a g, addr_injective a (length clients) f))
      cases (inr (ne, g)) (inr (ne', g')) = v.distinct i k a g g'

  IsPool-admit :
      IsPool
        (record { clients = set p.clients j new; size = p.size +ℤ pos 1 })
        (clients ++ some c ∷ [])
  IsPool-admit = record {
    slots = length-set p.clients j new ∙ v.slots;
    counted =
        ap (λ z. z +ℤ pos 1) v.counted
        ∙ pos-+ℤ (occupied p.clients) 1
        ∙ ap pos (sym (occupied-set_in p.clients j new empty refl));
    member = member_after;
    distinct = distinct_after;
  }

pub Inv-admitted :
    (w : World) (connfd : ℤ) (raw : User) (j : ℕ)
    → Inv w
    → get_elem? w.pool.clients j ≡ some null
    → Inv (admitted w connfd raw j)
Inv-admitted w connfd raw j v empty = record {
  pool = IsPool-admit w.pool w.clients (new_client w connfd raw) j v.pool empty;
  uids = IsUids-malloc w.clients w.counter_client (new_client w connfd raw) refl v.uids;
  table = v.table;
}

-- A new connection keeps the invariant, whatever `malloc` left in the new object.
pub accept_connection-Keeps : (connfd : ℤ) (raw : User) → Keeps Inv (accept_connection connfd raw)
accept_connection-Keeps connfd raw w v = cases (accept_connection-Accepted w connfd raw v)
  where
    cases : Accepted w connfd raw → Ends (λ _. Inv) (accept_connection connfd raw w)
    cases (inl (full, e)) = rw e v
    cases (inr (j, empty, e)) = rw e (Inv-admitted w connfd raw j v empty)
