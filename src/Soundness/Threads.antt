-- ===== src/Soundness/Threads.antt =====
-- The whole thread of a client (server/client.c, `client_handler`), from a sound state.
use lso_server.Base.{
  ℕ, ◌≡◌, refl, ap, subst, ◌∙◌, ◌⊎◌, inl, inr, List, [], ◌∷◌, ◌++◌, some, ok, fault, signed, length,
  drop, get_elem?, replicate,
}
use lso_server.Memory.{Block, malloc_bytes}
use lso_server.Memory.Laws.{init}
use lso_server.Buffer.Holds.{byte_buffer_create_from_bytes_lem}
use lso_server.Utils.Decode.{pattern16}
use lso_server.Writer.Strings.{IsBytes}
use lso_server.Message.Received.{message_create_from_byte_buffer_one_byte}
use lso_server.World.{null, addr, Client, Pool, World, object}
use lso_server.World.Laws.{Ends}
use lso_server.Server.{receive, handler_loop, client_handler, buffer_size}
use lso_server.Invariant.Keeps.{Kept, Kept-self}
use lso_server.Invariant.Handlers.{receive-Stable}
use lso_server.Soundness.{Sound}
use lso_server.Soundness.Heaps.{addr_eq}
use lso_server.Soundness.Polite.{IsPolite}
use lso_server.Soundness.Serving.{receive-Does}
use lso_server.Soundness.Disconnecting.{Vanished, Vanished-before, disconnect-Does}

-- Reads of the client at `addr a`, each of at least two bytes and polite in the state that it
-- meets.
pub data Converses (a : ℕ) : World → List (List ℕ) → Type 0 where
  ends : (w : World) → Converses a w []
  reads :
      (w : World) (b0 b1 : ℕ) (bs : List ℕ) (later : List (List ℕ))
      → IsBytes (b0 ∷ b1 ∷ bs)
      → ((c : Client)
          → object w.clients (addr a) ≡ some c
          → IsPolite w c (signed 16 (pattern16 b0 b1)) bs)
      → ((rest : Block) (w' : World)
          → receive (addr a) (init (b0 ∷ b1 ∷ bs) ++ rest) (length (b0 ∷ b1 ∷ bs)) w ≡ ok (tt, w')
          → Converses a w' later)
      → Converses a w ((b0 ∷ b1 ∷ bs) ∷ later)

-- A client stays where it is while it is in the pool.
still_live :
    (w w' : World) (a : ℕ) (c : Client)
    → Sound w
    → object w.clients (addr a) ≡ some c
    → Sound w'
    → w'.pool ≡ w.pool
    → (d : Client) × (object w'.clients (addr a) ≡ some d)
still_live w w' a c v live v' same =
    let (j, at) = v.pooled a c live in
    found (v'.inv.pool.member j (addr a) (ap (λ (p : Pool). get_elem? p.clients j) same ∙ at))
  where
    found :
        (addr a ≡ null)
          ⊎ ((k : ℕ) × (d : Client) × (addr a ≡ addr k) × (object w'.clients (addr k) ≡ some d))
        → (d : Client) × (object w'.clients (addr a) ≡ some d)
    found (inl e) = cc
    found (inr (k, d, e, f)) = (d, ap (λ (n : ℕ). object w'.clients (addr n)) (addr_eq e) ∙ f)

-- The state after such reads, in which the loop goes on.
record Heard (a : ℕ) (w : World) (m : Block) (before later : List (List ℕ)) : Type 0 where
  after : World
  buffer : Block
  client : Client
  runs : handler_loop (addr a) m (before ++ later) w ≡ handler_loop (addr a) buffer later after
  sound : Sound after
  live : object after.clients (addr a) ≡ some client
  pool : after.pool ≡ w.pool

heard :
    (a : ℕ) (w : World) (c : Client) (m : Block) (before later : List (List ℕ))
    → Sound w
    → object w.clients (addr a) ≡ some c
    → Converses a w before
    → Heard a w m before later
unfolding handler_loop
heard a w c m before later v live (ends _) = record {
  after = w;
  buffer = m;
  client = c;
  runs = refl;
  sound = v;
  live = live;
  pool = refl;
}
heard a w c m before later v live (reads _ b0 b1 bs others bytes polite go) =
    let rest = drop (length (b0 ∷ b1 ∷ bs)) m in
    let (w', runs, v', change) = receive-Does w v a c live b0 b1 bs rest bytes (polite c live) in
    let kept : Kept w w' = subst (Ends (λ _. Kept w)) runs (
      (receive-Stable (addr a) (init (b0 ∷ b1 ∷ bs) ++ rest) (length (b0 ∷ b1 ∷ bs))).runs w w
        (Kept-self w v.inv)) in
    let (d, live') = still_live w w' a c v live v' kept.pool in
    let h = heard a w' d (replicate buffer_size (some 0)) others later v' live' (go rest w' runs) in
    record {
      after = h.after;
      buffer = h.buffer;
      client = h.client;
      runs = rw runs h.runs;
      sound = h.sound;
      live = h.live;
      pool = h.pool ∙ kept.pool;
    }

module _ (w : World) (a : ℕ) (c : Client) (before later : List (List ℕ)) (v : Sound w)
    (live : object w.clients (addr a) ≡ some c) (talk : Converses a w before) where
  -- From a sound state the whole thread of a live client returns, if each of its reads before the
  -- empty one has at least two bytes and is polite in the state that it meets: the state is sound
  -- again, the client is freed, its slot of the pool is emptied and no other changes, the pool
  -- counts one client less, and no slot of a room leads to it.
  pub client_handler-vanishes :
      (w' : World) × (client_handler (addr a) (before ++ [] ∷ later) w ≡ ok (tt, w'))
      × Sound w'
      × Vanished a w w'
  unfolding client_handler handler_loop
  client_handler-vanishes =
      let h = heard a w c (malloc_bytes buffer_size) before ([] ∷ later) v live talk in
      let (w', runs, v', change, gone) = disconnect-Does h.after a h.client h.sound h.live in
      (w', rw (h.runs, runs) refl, v', Vanished-before a w h.after w' h.pool gone)

  -- From a sound state, after any reads of at least two bytes that are polite in the states that
  -- they meet, a read of a single byte makes the thread of a live client read the tag of the
  -- message beyond the end of its block, whatever the byte is and whatever would come behind it.
  pub client_handler-one_byte :
      (b : ℕ) → client_handler (addr a) (before ++ (b ∷ []) ∷ later) w ≡ fault
  unfolding client_handler handler_loop receive
  client_handler-one_byte b =
      let h = heard a w c (malloc_bytes buffer_size) before ((b ∷ []) ∷ later) v live talk in
      rw
        (
          h.runs,
          byte_buffer_create_from_bytes_lem b [] (drop 1 h.buffer),
          message_create_from_byte_buffer_one_byte b,
        )
        refl
