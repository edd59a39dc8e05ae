-- ===== src/Handlers/Departure.antt =====
-- What `handle_leave_room_tag` of server/client.c does for a member and for the owner of a room.
use lso_server.Base.{
  ℕ, ◌<◌, ◌≡◌, ◌≢◌, refl, List, ◌∷◌, ◌++◌, some, ok, false, eqb_ℤ, get_elem?, set, ◌-ℤ◌, pos,
}
use lso_server.Memory.{Block}
use lso_server.Memory.Laws.{init, NonZero}
use lso_server.Utils.RoundTrip.{int32_bytes}
use lso_server.Tags.{leave_room_tag}
use lso_server.Writer.Strings.{IsBytes, string_bytes}
use lso_server.Message.Wire.{wire}
use lso_server.World.{null, addr, Client, Room, World, object, string}
use lso_server.World.Heap.{object-put_self}
use lso_server.World.Laws.{get_client-live, get_room-live}
use lso_server.ClientPool.Lookup.{Slots}
use lso_server.Room.Leaving.{left, room_remove_client-leaves}
use lso_server.Messages.{create_leave_room_message}
use lso_server.Invariant.{Inv}
use lso_server.Handlers.{handle_leave_room_tag, leave_room}
use lso_server.Handlers.Replies.{client_message-Carries}
use lso_server.Client.Posted.{posted}
use lso_server.Handlers.Relay.{packets, room_send_message-packets}
use lso_server.Invariant.Carried.{Slots-left}

-- In a state that satisfies the invariant, whether or not the sends succeed, a signed-in member
-- that is not the owner leaves its room: its first slot is empty afterwards, the room counts one
-- member less, the client is in no room, and each member that is left is sent the id and the name.
pub handle_leave_room_tag-leaves :
    (w : World) (a b j : ℕ) (c o : Client) (r : Room) (cs : List ℕ) (rest : Block)
    → Inv w
    → object w.clients (addr a) ≡ some c
    → c.room ≡ addr b
    → object w.rooms (addr b) ≡ some r
    → Slots w r.clients
    → get_elem? r.clients j ≡ some (addr a)
    → ((k : ℕ) → k < j → get_elem? r.clients k ≢ some (addr a))
    → object w.clients r.owner ≡ some o
    → eqb_ℤ o.user.id c.user.id ≡ false
    → c.user.name ≡ string (init cs ++ some 0 ∷ rest)
    → NonZero cs
    → IsBytes cs
    → handle_leave_room_tag (addr a) w ≡ (
        let w' = left w b r j a c in
        ok (
          tt,
          record w' {
            sent = posted w.outside w.sent (
                packets w'.clients
                  (set r.clients j null)
                  (wire leave_room_tag (int32_bytes c.user.id ++ string_bytes cs)));
          },
        ))
unfolding handle_leave_room_tag leave_room create_leave_room_message
handle_leave_room_tag-leaves w a b j c o r cs rest v live inside there slots at first owner other
      named text bytes =
    let w' = left w b r j a c in
    let c' : Client = record c { room = null } in
    let r' : Room = record r {
      clients = set r.clients j null;
      clients_count = r.clients_count -ℤ pos 1;
    } in
    let ((m, _), e, (same, carries)) =
      client_message-Carries w' leave_room_tag (addr a) c' cs rest
        (object-put_self w.clients a c (some c') live) named text bytes in
    rw
      (
        get_client-live (addr a) w c live,
        inside,
        get_room-live (addr b) w r there,
        get_client-live r.owner w o owner,
        other,
        room_remove_client-leaves w b r j a c v there slots live at first,
        e,
        same,
      )
      (room_send_message-packets w' b r' m leave_room_tag _
        (object-put_self w.rooms b r (some r') there)
        (Slots-left w a c c' live refl r.clients j at slots) carries)
