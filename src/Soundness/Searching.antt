-- ===== src/Soundness/Searching.antt =====
-- What the search of the pool finds, and whom a client refuses (server/client_pool.c,
-- server/client.c), in a sound state.
use lso_server.Base.{
  ℕ, ◌≡◌, refl, ap, sym, ◌∙◌, ◌⊎◌, inl, inr, List, Option, some, ℤ, Result, Bool, true, ok, arith,
  eqb_ℤ→eq, not, ◌||◌,
}
use lso_server.Reader.{Reader}
use lso_server.Reader.Remains.{Remains}
use lso_server.World.{
  Pointer, null, wild, addr, CString, no_string, wild_string, string, Client, World, object,
  is_no_string,
}
use lso_server.ClientPool.{client_pool_get}
use lso_server.ClientPool.Lookup.{IsFirst, client_pool_get-IsFirst}
use lso_server.Invariant.{occupied}
use lso_server.Invariant.Slots.{occupied-le-length}
use lso_server.Invariant.Handlers.{handle_join_room_refused_tag-Stable}
use lso_server.Handlers.{handle_join_room_refused_tag}
use lso_server.Handlers.Refusal.{handle_join_room_refused_tag-tells}
use lso_server.Soundness.{IsSigned, IsName, Sound}
use lso_server.Soundness.Guests.{Stays, Does}
use lso_server.Soundness.Outcomes.{reply-Stays}
use lso_server.Soundness.Polite.{Counts}
use lso_server.Soundness.Asking.{read_number}

-- What the search tests of a client.
sought_name : (s : CString) (b : Bool) → not (is_no_string s || b) ≡ true → IsName s → IsSigned s
sought_name no_string b h name = cc
sought_name wild_string b h name = absurd name
sought_name (string m) b h name = name

sought_id : (s : Bool) (b : Bool) → not (s || not b) ≡ true → b ≡ true
sought_id s b h = ground arith

live_addr :
    (heap : List (Option Client)) (p : Pointer) (x : Client)
    → object heap p ≡ some x
    → (k : ℕ) × (p ≡ addr k)
live_addr heap null x e = cc
live_addr heap wild x e = cc
live_addr heap (addr k) x e = (k, refl)

module _ (w : World) (v : Sound w) where
  pool_slot :
      {q : Pointer}
      → (q ≡ null) ⊎ ((a : ℕ) × (c : Client) × (q ≡ addr a) × (object w.clients (addr a) ≡ some c))
      → (q ≡ null) ⊎ ((c : Client) × (object w.clients q ≡ some c))
  pool_slot (inl e) = inl e
  pool_slot (inr (a, c, e, live)) = inr (c, ap (object w.clients) e ∙ live)

  -- A client that the search finds is live, and signed in with that id.
  pub record Found (z : ℤ) (k : ℕ) : Type 0 where
    pub client : Client
    pub live : object w.clients (addr k) ≡ some client
    pub signed : IsSigned client.user.name
    pub known : client.user.id ≡ z

  abbrev pub Search : ℤ → Type 0
  Search z =
      (client_pool_get z w ≡ ok (null, w))
      ⊎ ((k : ℕ) × (client_pool_get z w ≡ ok (addr k, w)) × Found z k)

  pub searched : (z : ℤ) → Search z
  searched z =
      let (p, runs, first) =
        client_pool_get-IsFirst w z (occupied w.pool.clients)
          (λ i q at. pool_slot (v.inv.pool.member i q at)) v.inv.pool.counted
          (occupied-le-length w.pool.clients)
          (omega (arith, occupied-le-length w.pool.clients, v.inv.pool.slots)) in
      cases p runs first
    where
      cases :
          (p : Pointer)
          → client_pool_get z w ≡ ok (p, w)
          → IsFirst w z w.pool.clients (occupied w.pool.clients) p
          → Search z
      cases p runs (inl (e, misses)) = inl (runs ∙ ap (λ (q : Pointer). ok (q, w)) e)
      cases p runs (inr (i, x, h, at, live, sought, misses)) =
          let (k, e) = live_addr w.clients p x live in
          let here : object w.clients (addr k) ≡ some x = ap (object w.clients) (sym e) ∙ live in
          inr (
            k,
            runs ∙ ap (λ (q : Pointer). ok (q, w)) e,
            record {
              client = x;
              live = here;
              signed = sought_name x.user.name _ sought (v.housed.named k x here);
              known = eqb_ℤ→eq _ z (sought_id (is_no_string x.user.name) _ sought);
            },
          )

  pub handle_join_room_refused_tag-Stays :
      (a k : ℕ) (c : Client) (reader : Reader) (xs ys : List ℕ) (z : ℤ)
      → object w.clients (addr a) ≡ some c
      → Remains reader xs
      → Counts xs z ys
      → client_pool_get z w ≡ ok (addr k, w)
      → Does Stays (handle_join_room_refused_tag (addr a) reader) w
  handle_join_room_refused_tag-Stays a k c reader xs ys z live rem number runs = told (searched z)
    where
      same : {p q : Pointer} → Path (Result (Pointer × World)) (ok (p, w)) (ok (q, w)) → p ≡ q
      same e = cc

      clash : addr k ≡ null → ⊥
      clash e = cc

      told : Search z → Does Stays (handle_join_room_refused_tag (addr a) reader) w
      told (inl missed) = absurd (clash (same (sym runs ∙ missed)))
      told (inr (m, found, f)) =
          reply-Stays (handle_join_room_refused_tag (addr a) reader) w _
            (handle_join_room_refused_tag-Stable (addr a) reader) v
            ((handle_join_room_refused_tag-tells w (addr a) (addr m) c reader number.b0 number.b1
                number.b2 number.b3 ys live (read_number reader xs z ys number rem)
                (ap (λ (t : ℤ). client_pool_get t w) number.value ∙ found)).0
              f.client f.live)
