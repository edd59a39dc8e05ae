-- ===== src/Invariant/Handlers.antt =====
-- The invariant and the handlers of server/client.c, down to one `read` and one disconnection.
use lso_server.Base.{ℕ, refl, Bool, List, [], ◌∷◌, ℤ, pos, eqb_ℤ}
use lso_server.Memory.{Block}
use lso_server.Tags.{room_closed_tag}
use lso_server.Reader.{Reader, lso_reader_read_int32, lso_reader_read_string}
use lso_server.Writer.{lso_writer_initialize}
use lso_server.Buffer.{byte_buffer_create_from_bytes}
use lso_server.Message.{
  Message, message_create_from_writer, message_create_empty, message_create_from_byte_buffer,
}
use lso_server.World.{Pointer, null, no_string, wild_string, Cmd, ◌>>=◌, pure, is_null}
use lso_server.World.Laws.{Quiet-lift, get_client-Quiet, get_room-Quiet}
use lso_server.Client.{client_send}
use lso_server.Messages.{
  create_join_room_notify_accepted_message, create_join_room_refused_message,
  create_join_room_requested_message, create_leave_room_message,
  create_room_create_accepted_message,
}
use lso_server.Handlers.{
  assigned, send_empty, handle_request_rooms_tag, refuses, handle_join_room_requested_tag,
  accept_member, handle_join_room_accepted_tag, handle_join_room_refused_tag,
  handle_message_received_tag, handle_sign_up_tag, handle_sign_in_tag, handle_create_room_tag,
  kick_all, close_room, leave_room, handle_leave_room_tag, on_message_received,
}
use lso_server.Server.{receive}
use lso_server.Invariant.Quiet.{
  client_serialize-Quiet, client_pool_get-Quiet, room_get-Quiet, room_is_full-Quiet,
  create_request_rooms_accepted_message-Quiet, room_message-Quiet, client_message-Quiet,
  create_send_message_message-Quiet,
}
use lso_server.Invariant.Keeps.{
  Stable, Stable-bind, Stable-read, Stable-lift, Stable-if, Stable-pure, Stable-Quiet,
  client_send-Stable, room_send_message-Stable, update_client_then-Stable, database_new_user-Stable,
  database_user_login-Stable,
}
use lso_server.Invariant.Rooms.{room_add_client-Stable}
use lso_server.Invariant.Registry.{
  room_remove_client-Stable, set_owner-Stable, room_create-Stable, room_delete-Stable,
}

-- A message to one client, as the last step of a handler.
reply-Stable : (p : Pointer) (m : Message) → Stable (client_send p m >>= λ _. pure tt)
reply-Stable p m = Stable-bind (client_send-Stable p m) λ _. Stable-pure

send_empty-Stable : (p : Pointer) (tag : ℤ) → Stable (send_empty p tag)
unfolding send_empty
send_empty-Stable p tag = Stable-lift (message_create_empty tag) λ m. reply-Stable p m

pub handle_request_rooms_tag-Stable : (client : Pointer) → Stable (handle_request_rooms_tag client)
unfolding handle_request_rooms_tag
handle_request_rooms_tag-Stable client =
    Stable-read create_request_rooms_accepted_message-Quiet λ m. reply-Stable client m

refuses-Stable :
    {B : Type 0} (room : Pointer) {k : Bool → Cmd B}
    → ((b : Bool) → Stable (k b))
    → Stable (refuses room >>= k)
refuses-Stable room next =
    Stable-bind (Stable-if (is_null room) Stable-pure (Stable-Quiet (room_is_full-Quiet room))) next

pub handle_join_room_requested_tag-Stable :
    (client : Pointer) (r : Reader) → Stable (handle_join_room_requested_tag client r)
unfolding handle_join_room_requested_tag create_join_room_refused_message
    create_join_room_requested_message
handle_join_room_requested_tag-Stable client r = Stable-lift (lso_reader_read_int32 r) λ (id, r).
    Stable-read (room_get-Quiet id) λ room. refuses-Stable room λ b.
      Stable-if b (Stable-read (Quiet-lift _) λ m. reply-Stable client m) (
        Stable-read (client_message-Quiet _ client)
          λ m. Stable-read (get_room-Quiet room) λ r. reply-Stable r.owner m)

accept_member-Stable : (requesting : Pointer) (id : ℤ) → Stable (accept_member requesting id)
unfolding create_join_room_notify_accepted_message
accept_member-Stable requesting id = Stable-read (room_get-Quiet id) λ room.
    Stable-bind (room_add_client-Stable room requesting)
      λ _. Stable-read (client_message-Quiet _ requesting) λ m. room_send_message-Stable room m

pub handle_join_room_accepted_tag-Stable :
    (client : Pointer) (r : Reader) → Stable (handle_join_room_accepted_tag client r)
unfolding handle_join_room_accepted_tag
handle_join_room_accepted_tag-Stable client r =
    Stable-lift (lso_reader_read_int32 r) λ (client_id, r).
      Stable-lift (lso_reader_read_int32 r) λ (room_id, r).
        Stable-read (client_pool_get-Quiet client_id) λ requesting.
          Stable-if (is_null requesting) Stable-pure (
            Stable-read (get_client-Quiet requesting)
              λ c. Stable-if (is_null c.room) (accept_member-Stable requesting room_id) Stable-pure)

pub handle_join_room_refused_tag-Stable :
    (client : Pointer) (r : Reader) → Stable (handle_join_room_refused_tag client r)
unfolding handle_join_room_refused_tag create_join_room_refused_message
handle_join_room_refused_tag-Stable client r =
    Stable-lift (lso_reader_read_int32 r) λ (client_id, r).
      Stable-read (client_pool_get-Quiet client_id) λ other.
        Stable-read (get_client-Quiet client)
          λ c. Stable-read (Quiet-lift _) λ m. reply-Stable other m

pub handle_message_received_tag-Stable :
    (client : Pointer) (r : Reader) → Stable (handle_message_received_tag client r)
unfolding handle_message_received_tag
handle_message_received_tag-Stable client r = Stable-read (get_client-Quiet client) λ c.
    Stable-if (is_null c.room) Stable-pure (
      Stable-lift (lso_reader_read_string r) λ read.
        Stable-read
          (create_send_message_message-Quiet client (assigned read.string wild_string) read.length)
          λ m. room_send_message-Stable c.room m)

pub handle_sign_up_tag-Stable :
    (client : Pointer) (r : Reader) → Stable (handle_sign_up_tag client r)
unfolding handle_sign_up_tag
handle_sign_up_tag-Stable client r = Stable-lift (lso_reader_read_string r) λ name.
    Stable-lift (lso_reader_read_string name.reader) λ password.
      Stable-bind
        (database_new_user-Stable (assigned name.string wild_string)
          (assigned password.string wild_string))
        λ b. Stable-if b (send_empty-Stable client _) (send_empty-Stable client _)

pub handle_sign_in_tag-Stable :
    (client : Pointer) (r : Reader) → Stable (handle_sign_in_tag client r)
unfolding handle_sign_in_tag
handle_sign_in_tag-Stable client r = Stable-lift (lso_reader_read_string r) λ name.
    Stable-lift (lso_reader_read_string name.reader) λ password.
      Stable-bind
        (database_user_login-Stable client (assigned name.string wild_string)
          (assigned password.string wild_string))
        λ b.
          Stable-if b
            (Stable-lift (lso_writer_initialize (pos 4)) λ writer.
              Stable-read (client_serialize-Quiet client writer) λ writer.
                Stable-lift (message_create_from_writer _ writer) λ m. reply-Stable client m)
            (send_empty-Stable client _)

pub handle_create_room_tag-Stable :
    (client : Pointer) (r : Reader) → Stable (handle_create_room_tag client r)
unfolding handle_create_room_tag create_room_create_accepted_message
handle_create_room_tag-Stable client r = Stable-lift (lso_reader_read_string r) λ read.
    Stable-bind (room_create-Stable (assigned read.string no_string)) λ room.
      Stable-if (is_null room) Stable-pure (
        Stable-bind (room_add_client-Stable room client) λ _.
          Stable-bind (set_owner-Stable room client)
            λ _. Stable-read (room_message-Quiet _ room) λ m. reply-Stable client m)

kick_all-Stable : (ps : List Pointer) (m : Message) → Stable (kick_all ps m)
unfolding kick_all
kick_all-Stable [] m = Stable-pure
kick_all-Stable (p ∷ ps) m = Stable-if (is_null p) (kick_all-Stable ps m) (
    update_client_then-Stable p (λ c. record c { room = null }) _ (λ c. refl)
      λ c. Stable-bind (client_send-Stable p m) λ _. kick_all-Stable ps m)

close_room-Stable : (client room : Pointer) → Stable (close_room client room)
unfolding close_room
close_room-Stable client room = Stable-lift (message_create_empty room_closed_tag) λ m.
    Stable-read (get_room-Quiet room) λ r. Stable-bind (kick_all-Stable r.clients m) λ _.
      update_client_then-Stable client (λ c. record c { room = null }) _ (λ c. refl)
        λ c. room_delete-Stable room

leave_room-Stable : (client room : Pointer) → Stable (leave_room client room)
unfolding leave_room create_leave_room_message
leave_room-Stable client room =
    Stable-bind (room_remove_client-Stable room client)
      λ _. Stable-read (client_message-Quiet _ client) λ m. room_send_message-Stable room m

pub handle_leave_room_tag-Stable : (client : Pointer) → Stable (handle_leave_room_tag client)
unfolding handle_leave_room_tag
handle_leave_room_tag-Stable client = Stable-read (get_client-Quiet client) λ c.
    Stable-if (is_null c.room) Stable-pure (
      Stable-read (get_room-Quiet c.room) λ r. Stable-read (get_client-Quiet r.owner) λ owner.
        Stable-if (eqb_ℤ owner.user.id c.user.id) (close_room-Stable client c.room)
          (leave_room-Stable client c.room))

pub on_message_received-Stable :
    (client : Pointer) (m : Message) → Stable (on_message_received client m)
unfolding on_message_received
on_message_received-Stable client m = Stable-if _ (handle_create_room_tag-Stable client _) (
    Stable-if _ (handle_request_rooms_tag-Stable client) (
      Stable-if _ (handle_join_room_requested_tag-Stable client _) (
        Stable-if _ (handle_join_room_accepted_tag-Stable client _) (
          Stable-if _ (handle_join_room_refused_tag-Stable client _) (
            Stable-if _ (handle_message_received_tag-Stable client _) (
              Stable-if _ (handle_leave_room_tag-Stable client) (
                Stable-if _ (handle_sign_up_tag-Stable client _)
                  (Stable-if _ (handle_sign_in_tag-Stable client _) Stable-pure))))))))

-- The bytes of one `read`, whatever they are, keep the invariant.
pub receive-Stable : (client : Pointer) (m : Block) (size : ℕ) → Stable (receive client m size)
unfolding receive
receive-Stable client m size = Stable-lift (byte_buffer_create_from_bytes (pos size) m) λ bf.
    Stable-lift (message_create_from_byte_buffer bf)
      λ message. on_message_received-Stable client message
