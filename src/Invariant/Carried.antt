-- ===== src/Invariant/Carried.antt =====
-- Slots that lead to clients, after an assignment to one of the clients.
use lso_server.Base.{ℕ, ◌≡◌, ◌≢◌, ap, ◌∙◌, ◌⊎◌, inl, inr, List, some, get_elem?, set, get_elem?-lt}
use lso_server.World.{Pointer, null, wild, addr, Client, World, object, put_object}
use lso_server.World.Heap.{object-put_self}
use lso_server.ClientPool.Lookup.{Slots}
use lso_server.Invariant.Slots.{set-slot-cases}
use lso_server.Invariant.Rules.{SameClients-put}

module _ (w : World) (a : ℕ) (c c' : Client) (live : object w.clients (addr a) ≡ some c)
    (same : c'.uid ≡ c.uid) where
  carried :
      (q : Pointer) (d : Client)
      → object w.clients q ≡ some d
      → (e : Client) × (object (put_object w.clients (addr a) (some c')) q ≡ some e)
  carried null d e = cc
  carried wild d e = cc
  carried (addr b) d e = (SameClients-put w.clients (addr a) c c' live same).forth b d e

  still :
      (q : Pointer)
      → (q ≡ null) ⊎ ((d : Client) × (object w.clients q ≡ some d))
      → (q ≡ null) ⊎ ((d : Client) × (object (put_object w.clients (addr a) (some c')) q ≡ some d))
  still q (inl h) = inl h
  still q (inr (d, h)) = inr (carried q d h)

  abbrev after : World
  after = record w { clients = put_object w.clients (addr a) (some c') }

  -- The same slots, and those with the client in one of them or with one emptied.
  pub Slots-put : (ps : List Pointer) → Slots w ps → Slots after ps
  Slots-put ps slots i q e = still q (slots i q e)

  pub Slots-joined :
      (ps : List Pointer) (i : ℕ)
      → get_elem? ps i ≡ some null
      → Slots w ps
      → Slots after (set ps i (addr a))
  Slots-joined ps i empty slots k q e =
      cases (set-slot-cases ps i k (addr a) q (get_elem?-lt ps i null empty) e)
    where
      cases :
          ((k ≡ i) × (q ≡ addr a)) ⊎ ((k ≢ i) × (get_elem? ps k ≡ some q))
          → (q ≡ null) ⊎ ((d : Client) × (object after.clients q ≡ some d))
      cases (inl (h, there)) =
          inr (c', ap (object after.clients) there ∙ object-put_self w.clients a c (some c') live)
      cases (inr (ne, h)) = still q (slots k q h)

  pub Slots-left :
      (ps : List Pointer) (j : ℕ)
      → get_elem? ps j ≡ some (addr a)
      → Slots w ps
      → Slots after (set ps j null)
  Slots-left ps j at slots k q e =
      cases (set-slot-cases ps j k null q (get_elem?-lt ps j (addr a) at) e)
    where
      cases :
          ((k ≡ j) × (q ≡ null)) ⊎ ((k ≢ j) × (get_elem? ps k ≡ some q))
          → (q ≡ null) ⊎ ((d : Client) × (object after.clients q ≡ some d))
      cases (inl (h, there)) = inl there
      cases (inr (ne, h)) = still q (slots k q h)
