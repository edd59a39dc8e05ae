-- ===== src/Handlers.antt =====
-- The handlers of server/client.c, one for each tag that a client may send, and their dispatch.
-- What they print is left out, and so are the frees of messages, which are values here.
pub mod Replies
pub mod Accounts
pub mod Quotes
pub mod Relay
pub mod Overflow
pub mod Faults
pub mod Admission
pub mod Departure
pub mod Released
pub mod Unmoved
pub mod Refusal
pub mod Uninvited
pub mod Orphans
pub mod SignIn
pub mod Creation
pub mod Listing
pub mod Closing
use lso_server.Base.{
  ℕ, Bool, true, false, List, [], ◌∷◌, Option, none, some, ℤ, pos, eqb_ℤ, Result, ◌||◌,
  if◌then◌else◌,
}
use lso_server.Memory.{Block}
use lso_server.Tags.{
  request_rooms_tag, join_room_request_tag, join_room_accepted_tag, join_room_refused_tag,
  send_message_tag, leave_room_requested_tag, sign_up_requested_tag, sign_up_accepted_tag,
  sign_up_rejected_tag, sign_in_requested_tag, sign_in_accepted_tag, sign_in_rejected_tag,
  room_create_requested_tag, room_closed_tag,
}
use lso_server.Reader.{Reader, StringRead, lso_reader_read_int32, lso_reader_read_string}
use lso_server.Writer.{lso_writer_initialize}
use lso_server.Message.{
  Message, message_create_from_writer, message_create_empty, message_to_reader,
}
use lso_server.World.{
  Pointer, null, CString, no_string, wild_string, string, Client, Room, Cmd, pure, ◌>>=◌, ◌>>◌,
  lift, get_client, set_client, get_room, set_room, is_null,
}
use lso_server.ClientPool.{client_pool_get}
use lso_server.Client.{client_send, client_serialize}
use lso_server.Room.{
  room_create, room_delete, room_get, room_is_full, room_add_client, room_remove_client,
  room_send_message,
}
use lso_server.Messages.{
  create_request_rooms_accepted_message, create_join_room_notify_accepted_message,
  create_join_room_refused_message, create_join_room_requested_message, create_leave_room_message,
  create_send_message_message, create_room_create_accepted_message,
}
use lso_server.Database.{database_new_user, database_user_login}

-- The pointer after a read of a string: `before`, if the read did not assign it.
abbrev pub assigned : Option Block → CString → CString
assigned none before = before
assigned (some m) before = string m

-- A message with no payload, sent to one client.
unfoldable pub send_empty : Pointer → ℤ → Cmd (Unit {0})
send_empty client tag = do
  message ← lift (message_create_empty tag)
  _ ← client_send client message
  pure tt

unfoldable pub handle_request_rooms_tag : Pointer → Cmd (Unit {0})
handle_request_rooms_tag client = do
  message ← create_request_rooms_accepted_message
  _ ← client_send client message
  pure tt

-- `room == NULL || room_is_full(room)`.
abbrev pub refuses : Pointer → Cmd Bool
refuses room = if is_null room then pure true else room_is_full room

unfoldable pub handle_join_room_requested_tag : Pointer → Reader → Cmd (Unit {0})
handle_join_room_requested_tag client reader = do
  (room_id, reader) ← lift (lso_reader_read_int32 reader)
  room ← room_get room_id
  refused ← refuses room
  if refused
      then (do
        message ← create_join_room_refused_message room
        _ ← client_send client message
        pure tt)
      else (do
        message ← create_join_room_requested_message client
        r ← get_room room
        _ ← client_send r.owner message
        pure tt)

abbrev pub accept_member : Pointer → ℤ → Cmd (Unit {0})
accept_member requesting room_id = do
  room ← room_get room_id
  room_add_client room requesting
  message ← create_join_room_notify_accepted_message requesting
  room_send_message room message

unfoldable pub handle_join_room_accepted_tag : Pointer → Reader → Cmd (Unit {0})
handle_join_room_accepted_tag client reader = do
  (client_id, reader) ← lift (lso_reader_read_int32 reader)
  (room_id, reader) ← lift (lso_reader_read_int32 reader)
  requesting ← client_pool_get client_id
  if is_null requesting then pure tt else (do
    c ← get_client requesting
    if is_null c.room then accept_member requesting room_id else pure tt)

unfoldable pub handle_join_room_refused_tag : Pointer → Reader → Cmd (Unit {0})
handle_join_room_refused_tag client reader = do
  (client_id, reader) ← lift (lso_reader_read_int32 reader)
  other ← client_pool_get client_id
  c ← get_client client
  message ← create_join_room_refused_message c.room
  _ ← client_send other message
  pure tt

unfoldable pub handle_message_received_tag : Pointer → Reader → Cmd (Unit {0})
handle_message_received_tag client reader = do
  c ← get_client client
  if is_null c.room then pure tt else (do
    read ← lift (lso_reader_read_string reader)
    message ← create_send_message_message client (assigned read.string wild_string) read.length
    room_send_message c.room message)

unfoldable pub handle_sign_up_tag : Pointer → Reader → Cmd (Unit {0})
unfolding send_empty
handle_sign_up_tag client reader = do
  name ← lift (lso_reader_read_string reader)
  password ← lift (lso_reader_read_string name.reader)
  created ←
      database_new_user (assigned name.string wild_string) (assigned password.string wild_string)
  if created then send_empty client sign_up_accepted_tag else send_empty client sign_up_rejected_tag

unfoldable pub handle_sign_in_tag : Pointer → Reader → Cmd (Unit {0})
unfolding send_empty
handle_sign_in_tag client reader = do
  name ← lift (lso_reader_read_string reader)
  password ← lift (lso_reader_read_string name.reader)
  result ←
      database_user_login client (assigned name.string wild_string)
        (assigned password.string wild_string)
  if result
      then (do
        writer ← lift (lso_writer_initialize (pos 4))
        writer ← client_serialize client writer
        message ← lift (message_create_from_writer sign_in_accepted_tag writer)
        _ ← client_send client message
        pure tt)
      else send_empty client sign_in_rejected_tag

unfoldable pub set_owner : Pointer → Pointer → Cmd (Unit {0})
set_owner room client = do r ← get_room room; set_room room (record r { owner = client })

unfoldable pub handle_create_room_tag : Pointer → Reader → Cmd (Unit {0})
unfolding set_owner
handle_create_room_tag client reader = do
  read ← lift (lso_reader_read_string reader)
  room ← room_create (assigned read.string no_string)
  if is_null room then pure tt else (do
    room_add_client room client
    set_owner room client
    message ← create_room_create_accepted_message room
    _ ← client_send client message
    pure tt)

-- The loop that closes a room: each member leaves and is told so.
unfoldable pub kick_all : List Pointer → Message → Cmd (Unit {0})
kick_all [] message = pure tt
kick_all (p ∷ ps) message =
    let rest = kick_all ps message in
    if is_null p then rest else (do
      c ← get_client p
      set_client p (record c { room = null })
      _ ← client_send p message
      rest)

unfoldable pub close_room : Pointer → Pointer → Cmd (Unit {0})
close_room client room = do
  message ← lift (message_create_empty room_closed_tag)
  r ← get_room room
  kick_all r.clients message
  c ← get_client client
  set_client client (record c { room = null })
  room_delete room

unfoldable pub leave_room : Pointer → Pointer → Cmd (Unit {0})
leave_room client room = do
  _ ← room_remove_client room client
  message ← create_leave_room_message client
  room_send_message room message

unfoldable pub handle_leave_room_tag : Pointer → Cmd (Unit {0})
unfolding close_room leave_room
handle_leave_room_tag client = do
  c ← get_client client
  if is_null c.room then pure tt else (do
    r ← get_room c.room
    owner ← get_client r.owner
    if eqb_ℤ owner.user.id c.user.id then close_room client c.room else leave_room client c.room)

unfoldable pub on_message_received : Pointer → Message → Cmd (Unit {0})
on_message_received client message =
    let reader = message_to_reader message in
    if eqb_ℤ message.tag room_create_requested_tag
    then handle_create_room_tag client reader
    else (if eqb_ℤ message.tag request_rooms_tag
        then handle_request_rooms_tag client
        else (if eqb_ℤ message.tag join_room_request_tag
            then handle_join_room_requested_tag client reader
            else (if eqb_ℤ message.tag join_room_accepted_tag
                then handle_join_room_accepted_tag client reader
                else (if eqb_ℤ message.tag join_room_refused_tag
                    then handle_join_room_refused_tag client reader
                    else (if eqb_ℤ message.tag send_message_tag
                        then handle_message_received_tag client reader
                        else (if eqb_ℤ message.tag leave_room_requested_tag
                            then handle_leave_room_tag client
                            else (if eqb_ℤ message.tag sign_up_requested_tag
                                then handle_sign_up_tag client reader
                                else (if eqb_ℤ message.tag sign_in_requested_tag
                                    then handle_sign_in_tag client reader
                                    else pure tt))))))))
