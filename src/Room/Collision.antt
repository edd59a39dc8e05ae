-- ===== src/Room/Collision.antt =====
-- Two threads in `room_add_client` of server/room.c at the same time: the lock is taken after the
-- search for an empty slot.
use lso_server.Base.{
  ℕ, suc, ◌+◌, ◌≡◌, ◌≢◌, refl, ap, sym, ◌∙◌, ◌⊎◌, inl, inr, List, some, none, pos, ok, false, arith,
  get_elem?, set, set-set, get_elem?-lt, ◌+ℤ◌, pos-+ℤ,
}
use lso_server.World.{
  Pointer, null, addr, Client, Room, World, object, put_object, Cmd, ◌>>=◌, ◌>>◌, get_room,
}
use lso_server.World.Heap.{object-put_self, object-put_ne}
use lso_server.World.Laws.{get_client-live, set_client-live, get_room-live, set_room-live}
use lso_server.ClientPool.Lookup.{Slots}
use lso_server.Room.{scan_room, already_in, place_client, join_slot, room_add_client}
use lso_server.Room.Joining.{last_empty, has_user, last_empty-slot, scan_room-returns}
use lso_server.Room.RoundTrip.{has_user-absent}
use lso_server.Invariant.{Inv, occupied}
use lso_server.Invariant.Slots.{occupied-set_in, set-slot-cases}

-- Both threads search before one of them assigns the slot.
unfoldable pub join_both : (room p q : Pointer) → Cmd (Unit {0})
join_both room p q = do
  r ← get_room room
  first ← scan_room p r.clients 0 none false
  s ← get_room room
  second ← scan_room q s.clients 0 none false
  join_slot room p first
  join_slot room q second

-- One thread alone.
room_add_client-alone :
    (room p : Pointer) (w : World)
    → room_add_client room p w
      ≡ (do r ← get_room room; slot ← scan_room p r.clients 0 none false; join_slot room p slot) w
unfolding room_add_client
room_add_client-alone room p w = refl

module _ (w : World) (b i a k : ℕ) (r : Room) (c d : Client) (v : Inv w)
    (there : object w.rooms (addr b) ≡ some r) (slots : Slots w r.clients)
    (slot : last_empty r.clients 0 none ≡ some i) (live : object w.clients (addr a) ≡ some c)
    (live' : object w.clients (addr k) ≡ some d) (new : has_user w c r.clients false ≡ false)
    (new' : has_user w d r.clients false ≡ false) (ne : a ≢ k) where
  abbrev seated : ℕ → Room → Room
  seated n s = record s {
    clients = set s.clients i (addr n);
    clients_count = s.clients_count +ℤ pos 1;
  }

  abbrev placed : World → ℕ → Room → Client → World
  placed x n s y = record x {
    rooms = put_object x.rooms (addr b) (some (seated n s));
    clients = put_object x.clients (addr n) (some (record y { room = addr b }));
  }

  place_client-placed :
      (x : World) (n : ℕ) (s : Room) (y : Client)
      → object x.rooms (addr b) ≡ some s
      → object x.clients (addr n) ≡ some y
      → place_client (addr b) (addr n) i x ≡ ok (tt, placed x n s y)
  unfolding place_client
  place_client-placed x n s y at here =
      let x' : World = record x { rooms = put_object x.rooms (addr b) (some (seated n s)) } in
      rw (
        get_room-live (addr b) x s at,
        set_room-live (addr b) x s (seated n s) at,
        get_client-live (addr n) x' y here,
        set_client-live (addr n) x' y (record y { room = addr b }) here,
      )

  empty : get_elem? r.clients i ≡ some null
  empty = last_empty-slot r.clients i slot

  first : World
  first = placed w a r c

  last : World
  last = placed first k (seated a r) d

  -- In a state that satisfies the invariant, two threads put two clients into a room, whose slots
  -- are empty or lead to clients and of which at least one is empty, and both search before one of
  -- them assigns the slot: if neither user is among the members, the second client overwrites the
  -- first, which is in the room but in no slot of it, and the room counts one member more than it
  -- has.
  pub join_both-overwrites :
      (w' : World) × (s : Room) × (x : Client) × (join_both (addr b) (addr a) (addr k) w
        ≡ ok (tt, w'))
      × (object w'.rooms (addr b) ≡ some s)
      × (object w'.clients (addr a) ≡ some x)
      × (x.room ≡ addr b)
      × ((j : ℕ) → get_elem? s.clients j ≢ some (addr a))
      × (s.clients_count ≡ pos (suc (occupied s.clients)))
  unfolding join_both already_in first last
  join_both-overwrites =
      let there' = object-put_self w.rooms b r (some (seated a r)) there in
      let still = object-put_ne w.clients a k (some (record c { room = addr b })) ne ∙ live' in
      (
        last,
        seated k (seated a r),
        record c { room = addr b },
        rw (
          get_room-live (addr b) w r there,
          scan_room-returns w (addr a) c live r.clients 0 none false slots,
          get_room-live (addr b) w r there,
          scan_room-returns w (addr k) d live' r.clients 0 none false slots,
          slot,
          new,
          new',
          place_client-placed w a r c there live,
          place_client-placed first k (seated a r) d there' still,
        ),
        object-put_self first.rooms b (seated a r) (some (seated k (seated a r))) there',
        object-put_ne first.clients k a (some (record d { room = addr b })) (λ e. ne (sym e))
            ∙ object-put_self w.clients a c (some (record c { room = addr b })) live,
        refl,
        absent,
        counted,
      )
    where
      absent : (j : ℕ) → get_elem? (set (set r.clients i (addr a)) i (addr k)) j ≢ some (addr a)
      absent j e = other (
          set-slot-cases r.clients i j (addr k) (addr a) (get_elem?-lt r.clients i null empty) (
            ap (λ (ps : List Pointer). get_elem? ps j) (sym (set-set r.clients i (addr a) (addr k)))
            ∙ e))
        where
          same : addr a ≡ addr k → a ≡ k
          same f = cc

          other :
              ((j ≡ i) × (addr a ≡ addr k)) ⊎ ((j ≢ i) × (get_elem? r.clients j ≡ some (addr a)))
              → ⊥
          other (inl (f, g)) = ne (same g)
          other (inr (f, g)) = has_user-absent w a c live r.clients false j new g

      counted :
          (r.clients_count +ℤ pos 1) +ℤ pos 1
          ≡ pos (suc (occupied (set (set r.clients i (addr a)) i (addr k))))
      counted =
          ap (λ z. (z +ℤ pos 1) +ℤ pos 1) (v.table.room b r there).counted
          ∙ ap (λ z. z +ℤ pos 1) (pos-+ℤ (occupied r.clients) 1)
          ∙ pos-+ℤ (occupied r.clients + 1) 1
          ∙ ap pos (omega (arith, occupied-set_in r.clients i (addr k) empty refl))
          ∙ ap (λ (ps : List Pointer). pos (suc (occupied ps)))
              (sym (set-set r.clients i (addr a) (addr k)))
