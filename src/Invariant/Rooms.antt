-- ===== src/Invariant/Rooms.antt =====
-- The invariant and `room_add_client` of server/room.c, with its search for a slot.
use lso_server.Base.{
  ℕ, suc, ◌+◌, ◌≡◌, refl, ap, sym, subst, ◌∙◌, ◌⊎◌, inl, inr, List, [], ◌∷◌, Option, none, some,
  pos, Bool, true, false, arith, get_elem?, set, length-set, if◌then◌else◌, eqb_ℤ, ◌+ℤ◌, ◌-ℤ◌,
  pos-+ℤ, pos--ℤ,
}
use lso_server.World.{
  Pointer, null, wild, addr, Room, World, Cmd, and_then, ◌>>=◌, pure, is_null, object, put_object,
  get_client, get_room, set_room,
}
use lso_server.World.Laws.{
  Ends, Ends-bind, Ends-Quiet, Ends-get_client, Ends-get_room, get_room-live, set_room-live,
}
use lso_server.Room.{scan_room, already_in, place_client, join_slot, room_add_client}
use lso_server.Invariant.{IsRoom, Inv, occupied}
use lso_server.Invariant.Slots.{occupied-set_in, occupied-set_out}
use lso_server.Invariant.Quiet.{already_in-Quiet}
use lso_server.Invariant.Keeps.{Kept, Kept-next, Stable, update_client-Stable}
use lso_server.Invariant.Search.{Ends-map}
use lso_server.Invariant.Tables.{IsTable-put}

-- An assignment to a room that keeps its id.
Inv-put_room :
    (w : World) (p : Pointer) (r r' : Room)
    → object w.rooms p ≡ some r
    → IsRoom r' w.counter_room
    → r'.id ≡ r.id
    → Inv w
    → Inv (record w { rooms = put_object w.rooms p (some r') })
Inv-put_room w null r r' e right id v = cc
Inv-put_room w wild r r' e right id v = cc
Inv-put_room w (addr a) r r' e right id v = record {
  pool = v.pool;
  uids = v.uids;
  table = IsTable-put w.rooms a r e w.g_rooms w.counter_room v.table r' right id;
}

Kept-put_room :
    (old w : World) (p : Pointer) (r r' : Room)
    → object w.rooms p ≡ some r
    → IsRoom r' w.counter_room
    → r'.id ≡ r.id
    → Kept old w
    → Kept old (record w { rooms = put_object w.rooms p (some r') })
Kept-put_room old w p r r' e right id v =
    Kept-next old w _ v refl refl refl (Inv-put_room w p r r' e right id v.inv)

pub live_room :
    (w : World) (p : Pointer) (r : Room)
    → object w.rooms p ≡ some r
    → Inv w
    → IsRoom r w.counter_room
live_room w null r e v = cc
live_room w wild r e v = cc
live_room w (addr a) r e v = v.table.room a r e

-- `r ← get_room p; set_room p (f r)`, and what follows.
pub update_room_then :
    {B : Type 0} (old w : World) (p : Pointer) (r r' : Room) (k : Unit {0} → Cmd B)
    → object w.rooms p ≡ some r
    → IsRoom r' w.counter_room
    → r'.id ≡ r.id
    → Kept old w
    → Stable (k tt)
    → Ends (λ _. Kept old) (and_then (set_room p r' w) k)
update_room_then old w p r r' k e right id v next =
    rw (set_room-live p w r r' e) (next.runs old _ (Kept-put_room old w p r r' e right id v))

pub set_room-Stable :
    (p : Pointer) (f : Room → Room)
    → ((r : Room) (n : ℕ) → IsRoom r n → IsRoom (f r) n)
    → ((r : Room) → (f r).id ≡ r.id)
    → Stable (get_room p >>= λ r. set_room p (f r))
set_room-Stable p f right id = record {
  runs = λ old w v.
      Ends-get_room (λ _. Kept old) p (λ r. set_room p (f r)) w
        λ r e. rw (set_room-live p w r (f r) e) (
          Kept-put_room old w p r (f r) e (right r w.counter_room (live_room w p r e v.inv)) (id r)
            v);
}

-- The slot that `scan_room` returns is empty, or it is the one that was passed to it.
abbrev Scanned : List Pointer → ℕ → Option ℕ → Option ℕ → Type 0
Scanned ps i index found =
    (found ≡ index) ⊎ ((j : ℕ) × (found ≡ some (i + j)) × (get_elem? ps j ≡ some null))

abbrev Scans : World → List Pointer → ℕ → Option ℕ → Option ℕ × Bool → World → Type 0
Scans w ps i index r w' = (w' ≡ w) × Scanned ps i index r.0

Scanned-later :
    (q : Pointer) (ps : List Pointer) (i : ℕ) (index found : Option ℕ)
    → Scanned ps (i + 1) index found
    → Scanned (q ∷ ps) i index found
Scanned-later q ps i index found (inl e) = inl e
Scanned-later q ps i index found (inr (j, e, f)) = inr (suc j, e ∙ ap some (omega arith), f)

Scanned-here :
    (ps : List Pointer) (i : ℕ) (index found : Option ℕ)
    → Scanned ps (i + 1) (some i) found
    → Scanned (null ∷ ps) i index found
Scanned-here ps i index found (inl e) = inr (0, e ∙ ap some (omega arith), refl)
Scanned-here ps i index found (inr (j, e, f)) = inr (suc j, e ∙ ap some (omega arith), f)

scan_member :
    (client q : Pointer) (ps : List Pointer) (i : ℕ) (index : Option ℕ) (present : Bool) (w : World)
    → ((b : Bool) → Ends (Scans w ps (i + 1) index) (scan_room client ps (i + 1) index b w))
    → Ends (Scans w (q ∷ ps) i index) (
        (get_client q >>= λ member. get_client client >>= λ c.
        scan_room client ps
          (i + 1)
          index
          (if eqb_ℤ member.user.id c.user.id then true else present))
          w)
scan_member client q ps i index present w rest =
    Ends-get_client (Scans w (q ∷ ps) i index) q _ w λ member e.
      Ends-get_client (Scans w (q ∷ ps) i index) client _ w λ c e'.
        Ends-map (Scans w ps (i + 1) index) (Scans w (q ∷ ps) i index) _
          (λ r w' (same, s). (same, Scanned-later q ps i index r.0 s)) (rest _)

scan_room-Scans :
    (client : Pointer) (ps : List Pointer) (i : ℕ) (index : Option ℕ) (present : Bool) (w : World)
    → Ends (Scans w ps i index) (scan_room client ps i index present w)
unfolding scan_room
scan_room-Scans client [] i index present w = (refl, inl refl)
scan_room-Scans client (null ∷ ps) i index present w =
    Ends-map (Scans w ps (i + 1) (some i)) (Scans w (null ∷ ps) i index) _
      (λ r w' (same, s). (same, Scanned-here ps i index r.0 s))
      (scan_room-Scans client ps (i + 1) (some i) present w)
scan_room-Scans client (wild ∷ ps) i index present w =
    scan_member client wild ps i index present w λ b. scan_room-Scans client ps (i + 1) index b w
scan_room-Scans client (addr a ∷ ps) i index present w =
    scan_member client (addr a) ps i index present w
      λ b. scan_room-Scans client ps (i + 1) index b w

-- A room with one more client in a slot that was empty, and one with a client less.
IsRoom-joined :
    (r : Room) (n i : ℕ) (p : Pointer)
    → IsRoom r n
    → get_elem? r.clients i ≡ some null
    → is_null p ≡ false
    → IsRoom (record r { clients = set r.clients i p; clients_count = r.clients_count +ℤ pos 1 }) n
IsRoom-joined r n i p v empty used = record {
  slots = length-set r.clients i p ∙ v.slots;
  counted =
      ap (λ z. z +ℤ pos 1) v.counted
      ∙ pos-+ℤ (occupied r.clients) 1
      ∙ ap pos (sym (occupied-set_in r.clients i p empty used));
  below = v.below;
}

pub IsRoom-left :
    (r : Room) (n i : ℕ) (p : Pointer)
    → IsRoom r n
    → get_elem? r.clients i ≡ some p
    → is_null p ≡ false
    → IsRoom
        (record r { clients = set r.clients i null; clients_count = r.clients_count -ℤ pos 1 })
        n
IsRoom-left r n i p v at used = record {
  slots = length-set r.clients i null ∙ v.slots;
  counted =
      ap (λ z. z -ℤ pos 1) v.counted
      ∙ ap (λ (k : ℕ). pos k -ℤ pos 1) (occupied-set_out r.clients i p at used)
      ∙ pos--ℤ (occupied (set r.clients i null) + 1) 1 (omega arith)
      ∙ ap pos (omega arith);
  below = v.below;
}

same_room :
    (w : World) (room : Pointer) (r s : Room)
    → object w.rooms room ≡ some r
    → object w.rooms room ≡ some s
    → r ≡ s
same_room w room r s e f = cc

place_client-Kept :
    (room client : Pointer) (i : ℕ) (old w : World) (r : Room)
    → object w.rooms room ≡ some r
    → get_elem? r.clients i ≡ some null
    → Kept old w
    → Ends (λ _. Kept old) (place_client room client i w)
unfolding place_client get_client
place_client-Kept room null i old w r e empty v =
    rw (get_room-live room w r e, set_room-live room w r _ e) tt
place_client-Kept room wild i old w r e empty v =
    rw (get_room-live room w r e, set_room-live room w r _ e) tt
place_client-Kept room (addr a) i old w r e empty v = rw (get_room-live room w r e) (
    update_room_then old w room r _ _ e
      (IsRoom-joined r w.counter_room i (addr a) (live_room w room r e v.inv) empty refl) refl v
      (update_client-Stable (addr a) (λ c. record c { room = room }) λ c. refl))

join_slot-Kept :
    (room client : Pointer) (old w : World) (r : Room) (slot : Option ℕ × Bool)
    → object w.rooms room ≡ some r
    → Scanned r.clients 0 none slot.0
    → Kept old w
    → Ends (λ _. Kept old) (join_slot room client slot w)
join_slot-Kept room client old w r (none, present) e found v = v
join_slot-Kept room client old w r (some i, present) e found v =
    Ends-Quiet (λ _. Kept old) (already_in present client room) _ w
      (already_in-Quiet present client room) λ b e'. placed b
  where
    empty : Scanned r.clients 0 none (some i) → get_elem? r.clients i ≡ some null
    empty (inl h) = cc
    empty (inr (j, h, at)) = ap (get_elem? r.clients) (some_index j h) ∙ at
      where
        some_index : (j : ℕ) → some i ≡ some (0 + j) → i ≡ j
        some_index j h = ground arith

    placed :
        (b : Bool) → Ends (λ _. Kept old) ((if b then pure tt else place_client room client i) w)
    placed true = v
    placed false = place_client-Kept room client i old w r e (empty found) v

pub room_add_client-Stable : (room client : Pointer) → Stable (room_add_client room client)
unfolding room_add_client
room_add_client-Stable room client = record {
  runs = λ old w v.
      Ends-get_room (λ _. Kept old) room _ w
        λ r e.
          Ends-bind (λ _. Kept old) (scan_room client r.clients 0 none false w) _
            (Scans w r.clients 0 none) (scan_room-Scans client r.clients 0 none false w)
            λ slot w' (same, found).
              subst (λ (x : World). Ends (λ _. Kept old) (join_slot room client slot x)) (sym same)
                (join_slot-Kept room client old w r slot e found v);
}
