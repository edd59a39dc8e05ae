-- ===== src/Soundness/Accepting.antt =====
-- A connection is accepted (server/main.c), in a sound state.
use lso_server.Base.{
  ℕ, ◌≡◌, refl, ap, sym, ◌∙◌, ◌⊎◌, inl, inr, List, some, ℤ, length, get_elem?, get_elem?-lt,
  get_elem?-set_self, get_elem?-set_ne, set,
}
use lso_server.World.{Pointer, null, addr, User, Client, World, object}
use lso_server.World.Heap.{object-malloc_back}
use lso_server.Server.{accept_connection}
use lso_server.Invariant.Members.{
  Accepted, accept_connection-Accepted, admitted, new_client, Inv-admitted,
}
use lso_server.Soundness.{IsName, Sound}
use lso_server.Soundness.Connecting.{Housed-connect}
use lso_server.Soundness.Guests.{Stays, Does}

-- A connection, with what `malloc` left in the new client.
pub accept_connection-Does :
    (w : World) (connfd : ℤ) (raw : User)
    → Sound w
    → IsName raw.name
    → Does Stays (accept_connection connfd raw) w
accept_connection-Does w connfd raw v name = cases (accept_connection-Accepted w connfd raw v.inv)
  where
    cases : Accepted w connfd raw → Does Stays (accept_connection connfd raw) w
    cases (inl (full, runs)) = (w, runs, v, λ k. refl)
    cases (inr (j, empty, runs)) = (
      admitted w connfd raw j,
      runs,
      record {
        inv = Inv-admitted w connfd raw j v.inv empty;
        served = v.served;
        housed = Housed-connect w.clients w.rooms v.housed (new_client w connfd raw) refl name;
        pooled = λ k x e. slot k x (object-malloc_back w.clients (new_client w connfd raw) x k e);
      },
      λ k. refl,
    )
      where
        slots : List Pointer
        slots = set w.pool.clients j (addr (length w.clients))

        clash : (k : ℕ) → some null ≡ some (addr k) → ⊥
        clash k e = cc

        slot :
            (k : ℕ) (x : Client)
            → ((k ≡ length w.clients) × (new_client w connfd raw ≡ x))
              ⊎ (object w.clients (addr k) ≡ some x)
            → (i : ℕ) × (get_elem? slots i ≡ some (addr k))
        slot k x (inl (e, f)) = (
          j,
          get_elem?-set_self w.pool.clients j (addr (length w.clients))
                (get_elem?-lt w.pool.clients j null empty)
              ∙ ap (λ (n : ℕ). some (addr n)) (sym e),
        )
        slot k x (inr live) =
            let (i, at) = v.pooled k x live in
            (
              i,
              get_elem?-set_ne w.pool.clients j i (addr (length w.clients))
                    (λ e. clash k (sym empty ∙ ap (get_elem? w.pool.clients) e ∙ at))
                  ∙ at,
            )
