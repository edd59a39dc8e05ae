-- ===== src/Soundness/Entering.antt =====
-- Who gets into a room (server/room.c, `room_add_client`), in a sound state.
use lso_server.Base.{
  subst, Option, ℕ, suc, ◌≡◌, ◌≢◌, refl, ap, sym, ◌∙◌, inl, inr, List, [], ◌∷◌, some, none, pos,
  false, ok, eqb_ℤ, eqb_ℤ→eq, Bool-cases, Option-cases, get_elem?, set, ◌+ℤ◌,
}
use lso_server.World.{Pointer, null, wild, addr, Client, Room, World, object, put_object}
use lso_server.World.Heap.{object-put_self, object-Put, Put}
use lso_server.ClientPool.Lookup.{Slots}
use lso_server.Room.{room_add_client}
use lso_server.Room.Joining.{
  last_empty, has_user, is_user, room_add_client-joins, room_add_client-full, last_empty-slot,
}
use lso_server.Invariant.Carried.{Slots-joined}
use lso_server.Soundness.{IsSigned, Housed, Sound}
use lso_server.Soundness.Joining.{Housed-join, fresh}
use lso_server.Soundness.Guests.{rooms_seen, hotel, Enters, Joins}
use lso_server.Soundness.Visits.{Enters-slot}
use lso_server.Soundness.Outcomes.{Older, room-Slots}

-- No member has the user id.
pub has_user-new :
    (w : World) (x : Client) (ps : List Pointer)
    → ((j k : ℕ) (y : Client)
        → get_elem? ps j ≡ some (addr k)
        → object w.clients (addr k) ≡ some y
        → y.user.id ≢ x.user.id)
    → has_user w x ps false ≡ false
has_user-new w x [] new = refl
has_user-new w x (p ∷ ps) new =
    rw (other p (λ k y e. new 0 k y (ap some e))) (has_user-new w x ps (λ j. new (suc j)))
  where
    other :
        (q : Pointer)
        → ((k : ℕ) (y : Client)
            → q ≡ addr k
            → object w.clients (addr k) ≡ some y
            → y.user.id ≢ x.user.id)
        → is_user x (object w.clients q) ≡ false
    other null h = refl
    other wild h = refl
    other (addr k) h = elim (Option-cases (object w.clients (addr k))) [
      | inl e ↦ rw e refl
      | inr (y, e) ↦ rw e (elim (Bool-cases (eqb_ℤ y.user.id x.user.id)) [
        | inl same ↦ absurd (h k y refl e (eqb_ℤ→eq _ x.user.id same))
        | inr differs ↦ differs
      ])
    ]

module _ (w : World) (v : Sound w) where
  -- The state after `room_add_client`, and the client and the room in it.
  pub record Entered (k b : ℕ) (x : Client) : Type 0 where
    pub after : World
    pub runs : room_add_client (addr b) (addr k) w ≡ ok (tt, after)
    pub housed : Housed after.clients after.rooms
    pub older : Older w after
    pub change : (w' : World) → w'.rooms ≡ after.rooms → Joins (hotel w) (hotel w')
    pub client : Client
    pub live : object after.clients (addr k) ≡ some client
    pub same : client.user ≡ x.user
    pub room : Room
    pub there : object after.rooms (addr b) ≡ some room
    pub slots : Slots after room.clients

  module _ (k b : ℕ) (x : Client) (r : Room) (live : object w.clients (addr k) ≡ some x)
      (alone : x.room ≡ null) (signed : IsSigned x.user.name)
      (there : object w.rooms (addr b) ≡ some r) (new : has_user w x r.clients false ≡ false) where
    pub enters : Entered k b x
    enters = elim (Option-cases (last_empty r.clients 0 none)) [
      | inl full ↦ record {
        after = w;
        runs =
            room_add_client-full w (addr k) x live (addr b) r there (room-Slots w v b r there) full;
        housed = v.housed;
        older = λ d y e. (y, e);
        change = λ w' e. inl (λ k. ap (λ (rooms : List (Option Room)). rooms_seen rooms k) e);
        client = x;
        live = live;
        same = refl;
        room = r;
        there = there;
        slots = room-Slots w v b r there;
      }
      | inr (i, slot) ↦
          let empty = last_empty-slot r.clients i slot in
          let x' : Client = record x { room = addr b } in
          let r' : Room = record r {
            clients = set r.clients i (addr k);
            clients_count = r.clients_count +ℤ pos 1;
          } in
          record {
            after = record w {
              rooms = put_object w.rooms (addr b) (some r');
              clients = put_object w.clients (addr k) (some x');
            };
            runs =
                room_add_client-joins w (addr k) x live (addr b) r there (room-Slots w v b r there)
                  i slot new;
            housed =
                Housed-join w.clients w.rooms v.housed k b i x r (r.clients_count +ℤ pos 1) live
                  alone signed there empty;
            older = λ d y e. older d y (object-Put w.clients k d x (some x') y live e);
            change = λ w' e. inr (
                subst (λ (rooms : List (Option Room)). Enters (hotel w) (rooms_seen rooms)) (sym e)
                  (Enters-slot w v k b i r (r.clients_count +ℤ pos 1) there empty (
                    fresh w.clients w.rooms v.housed k b i x r (r.clients_count +ℤ pos 1) live alone
                      signed there empty)));
            client = x';
            live = object-put_self w.clients k x (some x') live;
            same = refl;
            room = r';
            there = object-put_self w.rooms b r (some r') there;
            slots = Slots-joined w k x x' live refl r.clients i empty (room-Slots w v b r there);
          }
    ]
      where
        older :
            (d : ℕ) (y : Client)
            → Put w.clients k d (some (record x { room = addr b })) y
            → (z : Client) × (object w.clients (addr d) ≡ some z)
        older d y (inl (e, f)) = (x, ap (λ (n : ℕ). object w.clients (addr n)) (sym e) ∙ live)
        older d y (inr (ne, f)) = (y, f)
