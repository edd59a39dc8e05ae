-- ===== src/Soundness/Disconnecting.antt =====
-- A client goes (server/client.c, the end of `client_handler`), in a sound state.
use lso_server.Base.{
  ℕ, ◌≡◌, ◌≢◌, pos, ok, ◌-ℤ◌, subst, refl, ap, sym, ◌∙◌, inl, inr, some, none, get_elem?,
  get_elem?-set_ne, set,
}
use lso_server.Memory.{c_text}
use lso_server.World.{
  null, addr, CString, no_string, wild_string, string, Client, Room, Pool, World, object,
}
use lso_server.World.Heap.{object-Put, Put, object-put_self}
use lso_server.World.Laws.{Ends, get_client-live, free_client-live}
use lso_server.Server.{disconnect}
use lso_server.Server.Farewell.{Printable, print_left-Printable}
use lso_server.Invariant.Keeps.{Kept, Kept-self}
use lso_server.Invariant.Handlers.{handle_leave_room_tag-Stable}
use lso_server.Handlers.Accounts.{c_text-init}
use lso_server.Soundness.Outcomes.{slot-IsMember}
use lso_server.Invariant.Removal.{
  departed, removed, client_pool_remove-removed, disconnect-departed, Inv-departed,
}
use lso_server.Soundness.{IsName, Sound, Stands}
use lso_server.Soundness.Heaps.{some_eq, addr_eq}
use lso_server.Soundness.Connecting.{Housed-free}
use lso_server.Soundness.Guests.{hotel, Leaves}
use lso_server.Soundness.Parting.{handle_leave_room_tag-Leaves}

-- A client that is in no room goes.
departed-Sound :
    (w : World) (a j : ℕ) (c : Client)
    → Sound w
    → object w.clients (addr a) ≡ some c
    → c.room ≡ null
    → get_elem? w.pool.clients j ≡ some (addr a)
    → Sound (departed w a j)
departed-Sound w a j c v live alone at = record {
  inv = Inv-departed w a j v.inv at;
  served = v.served;
  housed = Housed-free w.clients w.rooms v.housed c alone a live;
  pooled = λ k x e. other k x (object-Put w.clients a k c none x live e);
}
  where
    other :
        (k : ℕ) (x : Client)
        → Put w.clients a k none x
        → (i : ℕ) × (get_elem? (set w.pool.clients j null) i ≡ some (addr k))
    other k x (inl (e, f)) = cc
    other k x (inr (ne, f)) =
        let (i, here) = v.pooled k x f in
        (
          i,
          get_elem?-set_ne w.pool.clients j i null
                (λ e. ne (addr_eq (some_eq (sym at ∙ ap (get_elem? w.pool.clients) e ∙ here))))
              ∙ here,
        )

-- Nothing leads to the client at `addr a` any more: it is freed, its slot of the pool is empty and
-- the pool counts one client less, and no slot of a room has it.
pub record Vanished (a : ℕ) (w w' : World) : Type 0 where
  pub freed : object w'.clients (addr a) ≡ none
  pub slot : ℕ
  pub stood : get_elem? w.pool.clients slot ≡ some (addr a)
  pub pool :
      w'.pool ≡ record { clients = set w.pool.clients slot null; size = w.pool.size -ℤ pos 1 }
  pub absent :
      (b i : ℕ) (r : Room)
      → object w'.rooms (addr b) ≡ some r
      → get_elem? r.clients i ≢ some (addr a)

named-Printable : (s : CString) → IsName s → Printable s
named-Printable no_string h = tt
named-Printable wild_string h = absurd h
named-Printable (string m) h = (h.chars, ap c_text h.split ∙ c_text-init h.chars h.rest h.text)

departed-Vanished :
    (w : World) (a j : ℕ) (c : Client)
    → object w.clients (addr a) ≡ some c
    → get_elem? w.pool.clients j ≡ some (addr a)
    → Sound (departed w a j)
    → Vanished a w (departed w a j)
departed-Vanished w a j c live at v = record {
  freed = gone;
  slot = j;
  stood = at;
  pool = refl;
  absent = λ b i r there here.
      clash (slot-IsMember (departed w a j) v b r i a there here).client
        (sym gone ∙ (slot-IsMember (departed w a j) v b r i a there here).live);
}
  where
    gone : object (departed w a j).clients (addr a) ≡ none
    gone = object-put_self w.clients a c none live

    clash : (x : Client) → none ≡ some x → ⊥
    clash x e = cc

-- Another pool that is the same.
pub Vanished-before :
    (a : ℕ) (w w' w'' : World) → w'.pool ≡ w.pool → Vanished a w' w'' → Vanished a w w''
Vanished-before a w w' w'' same v = record {
  freed = v.freed;
  slot = v.slot;
  stood = ap (λ (p : Pool). get_elem? p.clients v.slot) (sym same) ∙ v.stood;
  pool =
      v.pool
      ∙ ap (λ (p : Pool). record { clients = set p.clients v.slot null; size = p.size -ℤ pos 1 })
          same;
  absent = v.absent;
}

-- In a sound state any client may go at any time, without undefined behaviour: its object is
-- freed, the slot of the pool that it stood in is emptied and no other changes, the pool counts
-- one client less, no slot of a room leads to it afterwards, and the state is sound again; of the
-- rooms, seen as bags of guests with an owner, nothing changes but that it is taken out of one
-- that it does not own, or that one with it among the guests is gone.
pub disconnect-Does :
    (w : World) (a : ℕ) (c : Client)
    → Sound w
    → object w.clients (addr a) ≡ some c
    → (w' : World) × (disconnect (addr a) w ≡ ok (tt, w'))
      × Sound w'
      × Leaves a (hotel w) (hotel w')
      × Vanished a w w'
unfolding disconnect
disconnect-Does w a c v live = cases (v.housed.stands a c live)
  where
    cases :
        Stands w.rooms a c
        → (w' : World) × (disconnect (addr a) w ≡ ok (tt, w'))
          × Sound w'
          × Leaves a (hotel w) (hotel w')
          × Vanished a w w'
    cases (inl alone) =
        let (j, at) = v.pooled a c live in
        let sound = departed-Sound w a j c v live alone at in
        (
          departed w a j,
          (disconnect-departed w a j v.inv at c live alone
              (named-Printable c.user.name (v.housed.named a c live))).0,
          sound,
          inl (λ k. refl),
          departed-Vanished w a j c live at sound,
        )
    cases (inr (b, r, i, inside, there, at)) =
        let (w', runs, v', change, (d, left, alone)) = handle_leave_room_tag-Leaves w v a c live in
        let (j, at') = v'.pooled a d left in
        let sound = departed-Sound w' a j d v' left alone at' in
        let kept : Kept w w' =
          subst (Ends (λ _. Kept w)) runs
            ((handle_leave_room_tag-Stable (addr a)).runs w w (Kept-self w v.inv)) in
        (
          departed w' a j,
          rw (
            get_client-live (addr a) w c live,
            inside,
            runs,
            get_client-live (addr a) w' d left,
            print_left-Printable d.user.name w'
                (named-Printable d.user.name (v'.housed.named a d left)),
            client_pool_remove-removed w' a j v'.inv at',
            free_client-live (addr a) (removed w' j) d left,
          ),
          sound,
          change,
          Vanished-before a w w' (departed w' a j) kept.pool
              (departed-Vanished w' a j d left at' sound),
        )
