-- ===== src/Invariant/Registry.antt =====
-- The invariant and `room_remove_client`, `room_create`, `room_delete` and the choice of an owner.
use lso_server.Base.{
  ℕ, ◌+◌, ◌≡◌, refl, ap, sym, subst, ◌∙◌, inl, inr, [], ◌∷◌, ◌++◌, Option, none, some, pos, Bool,
  true, false, arith, length, get_elem?, set, replicate, length-replicate, if◌then◌else◌,
  Option-cases, ltb,
}
use lso_server.Memory.{Block, malloc_bytes}
use lso_server.World.{
  Pointer, null, wild, addr, CString, Client, Room, World, and_then, ◌>>◌, pure, modify, undefined,
  is_null, object, set_client, free_room, malloc_room, deref,
}
use lso_server.World.Laws.{
  Ends, Ends-bind, Ends-lift, Ends-get_client, Ends-get_room, get_room-live, set_client-live,
  free_room-live, get_room-dead,
}
use lso_server.ClientPool.{find_uid}
use lso_server.Room.{
  room_create, room_delete, set_g_room, strcpy, leave_slot, room_remove_client,
  room_find_client_index, same_pointer, max_room_name, max_clients_per_room,
}
use lso_server.Handlers.{set_owner}
use lso_server.Invariant.{IsRoom}
use lso_server.Invariant.Slots.{occupied-replicate}
use lso_server.Invariant.Keeps.{
  Kept, Kept-next, Kept-put_client, Stable, Stable-if, Stable-pure, update_client_then-Stable,
}
use lso_server.Invariant.Search.{Finds, Found, find_uid-Finds}
use lso_server.Invariant.Rooms.{live_room, IsRoom-left, update_room_then, set_room-Stable}
use lso_server.Invariant.Tables.{IsTable-delete, IsTable-create}

leave_none-Stable : (room client : Pointer) → Stable (leave_slot room client none)
leave_none-Stable room client = record {
  runs = λ old w v.
      Ends-get_client (λ _. Kept old) client _ w λ c e. go old w v c e (same_pointer c.room room);
}
  where
    go :
        (old w : World) (v : Kept old w) (c : Client)
        → object w.clients client ≡ some c
        → (b : Bool)
        → Ends
            (λ (_ : Bool). Kept old)
            (((if b then set_client client (record c { room = null }) else pure tt) >> pure false)
              w)
    go old w v c e true =
        rw (set_client-live client w c (record c { room = null }) e)
          (Kept-put_client old w client c (record c { room = null }) e refl v)
    go old w v c e false = v

leave_slot-Kept :
    (room client : Pointer) (old w : World) (r : Room) (found : Option ℕ)
    → object w.rooms room ≡ some r
    → Found w client r.clients 0 found
    → Kept old w
    → Ends (λ _. Kept old) (leave_slot room client found w)
leave_slot-Kept room client old w r none e found v = (leave_none-Stable room client).runs old w v
leave_slot-Kept room client old w r (some i) e (inl (h, others)) v = cc
leave_slot-Kept room client old w r (some i) e (inr (j, q, h, at, used, same)) v =
    rw (get_room-live room w r e) (
      update_room_then old w room r _ _ e
        (IsRoom-left r w.counter_room i q (live_room w room r e v.inv)
          (ap (get_elem? r.clients) (some_index h) ∙ at) used)
        refl v
        (update_client_then-Stable client (λ c. record c { room = null }) (λ _. pure true)
          (λ c. refl) λ c. Stable-pure))
  where
    some_index : some i ≡ some (0 + j) → i ≡ j
    some_index h = ground arith

pub room_remove_client-Stable : (room client : Pointer) → Stable (room_remove_client room client)
unfolding room_remove_client room_find_client_index
room_remove_client-Stable room client = Stable-if (is_null room) Stable-pure (record {
  runs = λ old w v. elim (Option-cases (object w.rooms room)) [
    | inl e ↦ rw (get_room-dead room w e) tt
    | inr (r, e) ↦ rw (get_room-live room w r e) (
        Ends-bind (λ _. Kept old) (find_uid client r.clients 0 w) _ (Finds w client r.clients 0)
          (find_uid-Finds client r.clients 0 w)
          λ slot w' (same, found).
            subst (λ (x : World). Ends (λ _. Kept old) (leave_slot room client slot x)) (sym same)
              (leave_slot-Kept room client old w r slot e found v))
  ];
})

pub set_owner-Stable : (room client : Pointer) → Stable (set_owner room client)
unfolding set_owner
set_owner-Stable room client =
    set_room-Stable room (λ r. record r { owner = client })
      (λ r n v. record { slots = v.slots; counted = v.counted; below = v.below }) λ r. refl

delete-Kept :
    (old w : World) (a : ℕ) (r : Room)
    → object w.rooms (addr a) ≡ some r
    → Kept old w
    → Ends (λ _. Kept old) ((set_g_room r.id null >> free_room (addr a)) w)
unfolding set_g_room
delete-Kept old w a r e v = inside (ltb r.id (length w.g_rooms))
  where
    after : World
    after = record w { g_rooms = set w.g_rooms r.id null }

    inside :
        (b : Bool)
        → Ends
            (λ _. Kept old)
            (and_then
              ((if b
                  then modify (λ w. record w { g_rooms = set w.g_rooms r.id null })
                  else undefined)
                w)
              (λ _. free_room (addr a)))
    inside true =
        rw (free_room-live (addr a) (record w { g_rooms = set w.g_rooms r.id null }) r e) (
          Kept-next old w _ v refl refl refl (record {
            pool = v.inv.pool;
            uids = v.inv.uids;
            table = IsTable-delete w.rooms a r e w.g_rooms w.counter_room v.inv.table;
          }))
    inside false = tt

pub room_delete-Stable : (room : Pointer) → Stable (room_delete room)
unfolding room_delete
room_delete-Stable null = Stable-pure
room_delete-Stable wild = record {
  runs = λ old w v. Ends-get_room (λ _. Kept old) wild _ w λ r e. cc;
}
room_delete-Stable (addr a) = record {
  runs = λ old w v. Ends-get_room (λ _. Kept old) (addr a) _ w λ r e. delete-Kept old w a r e v;
}

-- The room that `room_create` makes.
abbrev pub made : World → Block → Room
made w name = record {
  clients = replicate max_clients_per_room null;
  id = w.counter_room;
  clients_count = pos 0;
  name = name;
  owner = wild;
}

made-IsRoom : (w : World) (name : Block) → IsRoom (made w name) (w.counter_room + 1)
made-IsRoom w name = record {
  slots = length-replicate max_clients_per_room null;
  counted = ap pos (sym (occupied-replicate max_clients_per_room));
  below = omega arith;
}

register-Kept :
    (old w : World) (name : Block)
    → Kept old w
    → (b : Bool) → ltb w.counter_room (length w.g_rooms) ≡ b
    → Ends
        (λ (_ : Pointer). Kept old)
        (((if b
              then modify (λ w'. record w' {
                g_rooms = set w'.g_rooms w.counter_room (addr (length w.rooms));
              })
              else undefined)
            >> pure (addr (length w.rooms)))
          (record w {
            counter_room = w.counter_room + 1;
            rooms = w.rooms ++ some (made w name) ∷ [];
          }))
register-Kept old w name v true h = Kept-next old w _ v refl refl refl (record {
  pool = v.inv.pool;
  uids = v.inv.uids;
  table =
      IsTable-create w.rooms w.g_rooms w.counter_room v.inv.table (made w name) refl
        (made-IsRoom w name) (ground arith);
})
register-Kept old w name v false h = tt

pub room_create-Stable : (name : CString) → Stable (room_create name)
unfolding room_create malloc_room set_g_room
room_create-Stable name = record {
  runs = λ old w v.
      Ends-lift (λ _. Kept old) (deref name) _ _
        λ src e.
          Ends-lift (λ _. Kept old) (strcpy (malloc_bytes max_room_name) src) _ _
            λ copy e'. register-Kept old w copy v (ltb w.counter_room (length w.g_rooms)) refl;
}
