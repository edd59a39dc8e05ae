-- ===== src/Invariant/Threads.antt =====
-- The invariant over what a thread does at once: one `read` (server/client.c, `client_handler`) and
-- what follows the loop.
use lso_server.Base.{
  ℕ, List, [], ◌∷◌, false, ◌≡◌, ◌⊎◌, ◌∙◌, sym, ap, inl, inr, some, get_elem?, set, ◌-ℤ◌, refl, pos,
  if◌then◌else◌,
}
use lso_server.Memory.{Block, malloc_bytes}
use lso_server.World.{
  CString, is_no_string, get_client, wild, addr, Pool, Pointer, null, World, pure, is_null,
}
use lso_server.World.Laws.{Ends, Ends-bind, Ends-get_client}
use lso_server.Handlers.{handle_leave_room_tag}
use lso_server.Server.{print_left, receive, disconnect, handler_loop, client_handler, buffer_size}
use lso_server.Invariant.{Inv}
use lso_server.Invariant.Keeps.{
  text-Stable, Kept, Kept-self, Stable, Stable-bind, Stable-if, Stable-pure,
}
use lso_server.Invariant.Search.{Ends-map}
use lso_server.Invariant.Removal.{removed}
use lso_server.Invariant.Handlers.{receive-Stable, handle_leave_room_tag-Stable}
use lso_server.Invariant.Leaving.{Gone, Freed, remove_and_free-Freed}

pub receive-Keeps :
    (client : Pointer) (m : Block) (size : ℕ) (w : World)
    → Inv w
    → Ends (λ _. Inv) (receive client m size w)
receive-Keeps client m size w v =
    Ends-map (λ _. Kept w) (λ _. Inv) _ (λ _ w' kept. kept.inv)
      ((receive-Stable client m size).runs w w (Kept-self w v))

-- Afterwards the client is freed, and at most its slot of the pool has changed.
abbrev pub Departed : Pointer → World → World → Type 0
Departed client w w' = (a : ℕ) × (client ≡ addr a) × Freed a w w'

Gone-after : (a : ℕ) (w w' w'' : World) → Kept w w' → Gone a w' w'' → Gone a w w''
Gone-after a w w' w'' k g = record {
  inv = g.inv;
  outsider = g.outsider;
  shape = before g.shape;
  counter = g.counter ∙ k.counter;
  outside = g.outside ∙ k.outside;
}
  where
    before :
        (w''.pool ≡ w'.pool)
          ⊎ ((j : ℕ) × (get_elem? w'.pool.clients j ≡ some (addr a))
              × (w''.pool ≡ (removed w' j).pool))
        → (w''.pool ≡ w.pool)
          ⊎ ((j : ℕ) × (get_elem? w.pool.clients j ≡ some (addr a))
              × (w''.pool ≡ (removed w j).pool))
    before (inl e) = inl (e ∙ k.pool)
    before (inr (j, at, e)) = inr (
      j,
      ap (λ (p : Pool). get_elem? p.clients j) (sym k.pool) ∙ at,
      e
          ∙ ap (λ (p : Pool). record { clients = set p.clients j null; size = p.size -ℤ pos 1 })
              k.pool,
    )

print_left-Stable : (name : CString) → Stable (print_left name)
unfolding print_left
print_left-Stable name =
    Stable-if (is_no_string name) Stable-pure (Stable-bind (text-Stable name) λ _. Stable-pure)

pub disconnect-Departed :
    (client : Pointer) (w : World) → Inv w → Ends (λ _. Departed client w) (disconnect client w)
unfolding disconnect get_client
disconnect-Departed null w v = tt
disconnect-Departed wild w v = tt
disconnect-Departed (addr a) w v =
    Ends-get_client (λ _. Departed (addr a) w) (addr a) _ w
      λ c e.
        Ends-bind (λ _. Departed (addr a) w)
          ((if is_null c.room then pure tt else handle_leave_room_tag (addr a)) w) _ (λ _. Kept w)
          ((Stable-if (is_null c.room) Stable-pure (handle_leave_room_tag-Stable (addr a))).runs w w
            (Kept-self w v))
          λ _ w' kept.
            Ends-get_client (λ _. Departed (addr a) w) (addr a) _ w'
              λ d f.
                Ends-bind (λ _. Departed (addr a) w) (print_left d.user.name w') _ (λ _. Kept w)
                  ((print_left-Stable d.user.name).runs w w' kept)
                  λ _ u kept'.
                    Ends-map (λ _. Freed a u) (λ _. Departed (addr a) w) _
                      (λ _ u' (g, freed). (a, refl, (Gone-after a w u u' kept' g, freed)))
                      (remove_and_free-Freed a u kept'.inv)

pub disconnect-Keeps :
    (client : Pointer) (w : World) → Inv w → Ends (λ _. Inv) (disconnect client w)
disconnect-Keeps client w v =
    Ends-map (λ _. Departed client w) (λ _. Inv) _ (λ _ w' (a, e, g). g.0.inv)
      (disconnect-Departed client w v)

handler_loop-Stable :
    (client : Pointer) (m : Block) (reads : List (List ℕ)) → Stable (handler_loop client m reads)
unfolding handler_loop
handler_loop-Stable client m [] = Stable-pure
handler_loop-Stable client m ([] ∷ reads) = Stable-pure
handler_loop-Stable client m ((b ∷ bs) ∷ reads) =
    Stable-bind (receive-Stable client _ _) λ _. handler_loop-Stable client _ reads

-- If a client's thread returns, over any reads, the invariant holds again, the client is freed, its
-- slot of the pool, if it had one, is empty, and no other slot, nor the counter of clients, has
-- changed.
pub client_handler-Departed :
    (client : Pointer) (reads : List (List ℕ)) (w : World)
    → Inv w
    → is_null client ≡ false
    → Ends (λ _. Departed client w) (client_handler client reads w)
unfolding client_handler
client_handler-Departed client reads w v used = rw used (
    Ends-bind (λ _. Departed client w) (handler_loop client (malloc_bytes buffer_size) reads w)
      (λ _. disconnect client) (λ _. Kept w)
      ((handler_loop-Stable client (malloc_bytes buffer_size) reads).runs w w (Kept-self w v))
      λ _ w' kept.
        Ends-map (λ _. Departed client w') (λ _. Departed client w) _
          (λ _ w'' (a, e, (g, freed)). (a, e, (Gone-after a w w' w'' kept g, freed)))
          (disconnect-Departed client w' kept.inv))
