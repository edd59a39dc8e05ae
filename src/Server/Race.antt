-- ===== src/Server/Race.antt =====
-- Why server/main.c cannot rely on the lock that it takes around `client_create` and
-- `client_pool_add`: the thread that `client_create` starts ends without it.
use lso_server.Base.{
  ℕ, ◌+◌, ◌≡◌, ◌≢◌, refl, ap, ◌∙◌, ◌⊎◌, inl, inr, [], ◌∷◌, ◌++◌, none, some, ℤ, pos, ok, true,
  arith, length, get_elem?, set, get_elem?-set_self, get_elem?-lt, ◌+ℤ◌,
}
use lso_server.World.{
  null, addr, User, Client, World, object, put_object, malloc_client, ◌>>=◌, ◌>>◌,
}
use lso_server.World.Heap.{object-malloc_self, object-malloc_forth, object-put_self}
use lso_server.World.Laws.{get_client-live, free_client-live}
use lso_server.ClientPool.{
  client_pool_add, client_pool_remove, find_index_in_client_pool, get_client_pool_empty_index,
  empty_index, max_clients,
}
use lso_server.Client.{client_create}
use lso_server.Server.{disconnect}
use lso_server.Server.Farewell.{Printable, print_left-Printable}
use lso_server.Invariant.{Inv, occupied}
use lso_server.Invariant.Slots.{empty_index-cases, Search}
use lso_server.Invariant.Members.{new_client, pool-lt, IsUids-malloc}
use lso_server.Invariant.Uids.{Members, find_uid-absent}

-- The state after a client was created.
abbrev created : World → ℤ → User → World
created w connfd raw = record w {
  counter_client = w.counter_client + 1;
  clients = w.clients ++ some (new_client w connfd raw) ∷ [];
}

-- The state in which the slot `j` leads to a client that was freed before it got there.
abbrev pub dangling : World → ℤ → User → ℕ → World
dangling w connfd raw j = record w {
  counter_client = w.counter_client + 1;
  clients =
      put_object (w.clients ++ some (new_client w connfd raw) ∷ []) (addr (length w.clients)) none;
  pool = record {
    clients = set w.pool.clients j (addr (length w.clients));
    size = w.pool.size +ℤ pos 1;
  };
}

module _ (w : World) (connfd : ℤ) (raw : User) (v : Inv w) where
  abbrev new : Client
  new = new_client w connfd raw

  created-Members : Members (created w connfd raw) w.pool.clients
  created-Members i q e = carried (v.pool.member i q e)
    where
      carried :
          (q ≡ null)
            ⊎ ((a : ℕ) × (c : Client) × (q ≡ addr a) × (object w.clients (addr a) ≡ some c))
          → (q ≡ null)
            ⊎ ((a : ℕ) × (c : Client) × (q ≡ addr a)
                × (object (created w connfd raw).clients (addr a) ≡ some c))
      carried (inl f) = inl f
      carried (inr (a, c, f, live)) = inr (a, c, f, object-malloc_forth w.clients new c a live)

  created-Inv : Inv (created w connfd raw)
  created-Inv = record {
    pool = record {
      slots = v.pool.slots;
      counted = v.pool.counted;
      member = created-Members;
      distinct = v.pool.distinct;
    };
    uids = IsUids-malloc w.clients w.counter_client new refl v.uids;
    table = v.table;
  }

  outsider : (k : ℕ) → get_elem? w.pool.clients k ≢ some (addr (length w.clients))
  outsider k e = absurd (omega (arith, pool-lt w.pool w.clients v.pool k (length w.clients) e))

  -- main.c takes the lock around client_create and client_pool_add, but client_create starts the
  -- thread of the client, whose end does not take it: if the other side hangs up in between, in a
  -- state that satisfies the invariant and with a slot empty, and if the name that malloc left is
  -- null or ends with a zero, the client is freed first and added to the pool then, where its slot
  -- leads to no object.
  pub client_pool_add-disconnect :
      occupied w.pool.clients ≢ max_clients
      → Printable raw.name
      → (j : ℕ) × (get_elem? w.pool.clients j ≡ some null)
        × ((client_create connfd raw >>= λ client. disconnect client >> client_pool_add client) w
            ≡ ok (true, dangling w connfd raw j))
        × (get_elem? (dangling w connfd raw j).pool.clients j ≡ some (addr (length w.clients)))
        × (object (dangling w connfd raw j).clients (addr (length w.clients)) ≡ none)
  unfolding client_create malloc_client disconnect client_pool_remove find_index_in_client_pool
      client_pool_add get_client_pool_empty_index
  client_pool_add-disconnect room printable = slot (empty_index-cases w.pool.clients 0)
    where
      live : object (created w connfd raw).clients (addr (length w.clients)) ≡ some new
      live = object-malloc_self w.clients new

      slot :
          Search w.pool.clients 0
          → (j : ℕ) × (get_elem? w.pool.clients j ≡ some null)
            × ((client_create connfd raw >>= λ client. disconnect client >> client_pool_add client)
                  w
                ≡ ok (true, dangling w connfd raw j))
            × (get_elem? (dangling w connfd raw j).pool.clients j ≡ some (addr (length w.clients)))
            × (object (dangling w connfd raw j).clients (addr (length w.clients)) ≡ none)
      slot (inl (e, f)) = absurd (room (f ∙ v.pool.slots))
      slot (inr (j, e, f)) =
          let found : empty_index w.pool.clients 0 ≡ some j = e ∙ ap some (omega arith) in
          (
            j,
            f,
            rw (
              get_client-live (addr (length w.clients)) (created w connfd raw) new live,
              get_client-live (addr (length w.clients)) (created w connfd raw) new live,
              print_left-Printable raw.name (created w connfd raw) printable,
              find_uid-absent (created w connfd raw) created-Inv (length w.clients) new live
                  w.pool.clients 0 created-Members outsider,
              free_client-live (addr (length w.clients)) (created w connfd raw) new live,
              found,
            ),
            get_elem?-set_self w.pool.clients j (addr (length w.clients))
                (get_elem?-lt w.pool.clients j null f),
            object-put_self (created w connfd raw).clients (length w.clients) new none live,
          )
