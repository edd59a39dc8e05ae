-- ===== src/Handlers/Replies.antt =====
-- What the handlers of server/client.c send, and to whom.
use lso_server.Base.{
  ℕ, ◌≡◌, refl, List, [], ◌∷◌, ◌++◌, some, ℤ, pos, ok, Bool, false, inl, inr, ◌⊎◌, Result, Returns,
  arith, signed, eqb_ℤ, get_elem?, ◌||◌,
}
use lso_server.Memory.{Block}
use lso_server.Memory.Laws.{init, NonZero}
use lso_server.Utils.Decode.{pattern32}
use lso_server.Utils.RoundTrip.{int32_bytes}
use lso_server.Tags.{
  request_rooms_tag, join_room_request_tag, join_room_accepted_tag, join_room_refused_tag,
  send_message_tag, leave_room_requested_tag, sign_up_requested_tag, sign_in_requested_tag,
  room_create_requested_tag, join_room_requested_tag,
}
use lso_server.Reader.{Reader}
use lso_server.Reader.Remains.{Remains, lso_reader_read_int32-Remains}
use lso_server.Writer.Holds.{lso_writer_initialize-Wrote}
use lso_server.Writer.Strings.{IsBytes, string_bytes}
use lso_server.Message.{Message}
use lso_server.Message.Wire.{
  Carries, wire, message_create_empty-Carries, message_create_from_writer-Carries,
}
use lso_server.World.{
  Pointer, null, wild, addr, Client, Room, World, and_then, object, string, ◌>>◌, pure,
}
use lso_server.World.Laws.{get_room-live}
use lso_server.Client.{transmit, client_send}
use lso_server.Client.Sends.{client_send-wire, client_serialize-Wrote}
use lso_server.Room.{room_get, room_is_full, max_clients_per_room}
use lso_server.Messages.{
  client_message, create_join_room_refused_message, create_join_room_requested_message,
}
use lso_server.Handlers.{handle_join_room_requested_tag, on_message_received}

-- The tags that have a handler.
abbrev pub is_handled : ℤ → Bool
is_handled tag =
    eqb_ℤ tag room_create_requested_tag
    || (eqb_ℤ tag request_rooms_tag
        || (eqb_ℤ tag join_room_request_tag
            || (eqb_ℤ tag join_room_accepted_tag
                || (eqb_ℤ tag join_room_refused_tag
                    || (eqb_ℤ tag send_message_tag
                        || (eqb_ℤ tag leave_room_requested_tag
                            || (eqb_ℤ tag sign_up_requested_tag
                                || eqb_ℤ tag sign_in_requested_tag)))))))

-- A message whose tag has no handler is dropped: nothing changes and nothing is sent.
pub on_message_received-ignores :
    (w : World) (client : Pointer) (m : Message)
    → is_handled m.tag ≡ false
    → on_message_received client m w ≡ ok (tt, w)
unfolding on_message_received
on_message_received-ignores w client m h = ground arith

-- A reply to one client, by what the message carries.
pub reply_lem :
    (w : World) (p : Pointer) (c : Client) (tag : ℤ) (bs : List ℕ) (r : Result (Message × World))
    → object w.clients p ≡ some c
    → Returns (λ (s : Message × World). (s.1 ≡ w) × Carries s.0 tag bs) r
    → and_then r (λ m. client_send p m >> pure tt)
      ≡ (transmit (record { sockfd = c.sockfd; bytes = wire tag bs }) >> pure tt) w
reply_lem w p c tag bs r live ((m, w'), e, (same, carries)) =
    rw (e, same, client_send-wire w p c m tag bs live carries)

-- A message whose payload is a client that is signed in.
pub client_message-Carries :
    (w : World) (tag : ℤ) (p : Pointer) (c : Client) (cs : List ℕ) (rest : Block)
    → object w.clients p ≡ some c
    → c.user.name ≡ string (init cs ++ some 0 ∷ rest)
    → NonZero cs
    → IsBytes cs
    → Returns
        (λ (s : Message × World).
          (s.1 ≡ w) × Carries s.0 tag (int32_bytes c.user.id ++ string_bytes cs))
        (client_message tag p w)
unfolding client_message
client_message-Carries w tag p c cs rest live named text bytes =
    let (w0, e0, h0) = lso_writer_initialize-Wrote 1 in
    let ((w1, _), e1, (same, h1)) =
      client_serialize-Wrote w p c cs rest w0 [] live named text bytes h0 in
    let (m, e2, h2) = message_create_from_writer-Carries tag w1 _ h1 in
    ((m, w), rw (e0, e1, same, e2), (refl, h2))

module _ (w : World) (client : Pointer) (c : Client) (reader : Reader) (b0 b1 b2 b3 : ℕ)
    (bs : List ℕ) (rem : Remains reader (b0 ∷ b1 ∷ b2 ∷ b3 ∷ bs)) (n : ℕ)
    (id : signed 32 (pattern32 b0 b1 b2 b3) ≡ pos n) (live : object w.clients client ≡ some c) where
  -- A request for a room that does not exist or is full is refused: the client that asked gets the
  -- tag 9 and no payload, and nothing else happens.
  pub handle_join_room_requested_tag-refused :
      (room : Pointer)
      → get_elem? w.g_rooms n ≡ some room
      → (room ≡ null)
        ⊎ ((r : Room) × (object w.rooms room ≡ some r)
            × (r.clients_count ≡ pos max_clients_per_room))
      → handle_join_room_requested_tag client reader w
        ≡ (transmit (record { sockfd = c.sockfd; bytes = wire (pos 9) [] }) >> pure tt) w
  unfolding handle_join_room_requested_tag room_get create_join_room_refused_message room_is_full
  handle_join_room_requested_tag-refused room e why = cases room e why
    where
      empty :
          Returns
            (λ (s : Message × World). (s.1 ≡ w) × Carries s.0 (pos 9) [])
            (create_join_room_refused_message null w)
      empty = let (m, e, h) = message_create_empty-Carries (pos 9) in ((m, w), rw e, (refl, h))

      cases :
          (room : Pointer)
          → get_elem? w.g_rooms n ≡ some room
          → (room ≡ null)
            ⊎ ((r : Room) × (object w.rooms room ≡ some r)
                × (r.clients_count ≡ pos max_clients_per_room))
          → handle_join_room_requested_tag client reader w
            ≡ (transmit (record { sockfd = c.sockfd; bytes = wire (pos 9) [] }) >> pure tt) w
      cases null e why =
          rw ((lso_reader_read_int32-Remains reader b0 b1 b2 b3 bs rem).0, id, e)
            (reply_lem w client c (pos 9) [] _ live empty)
      cases wild e (inl h) = cc
      cases wild e (inr (r, h, full)) = cc
      cases (addr a) e (inl h) = cc
      cases (addr a) e (inr (r, h, full)) =
          rw
            (
              (lso_reader_read_int32-Remains reader b0 b1 b2 b3 bs rem).0,
              id,
              e,
              get_room-live (addr a) w r h,
              full,
            )
            (reply_lem w client c (pos 9) [] _ live empty)

  -- A request of a signed-in client for a room in the table that is not full goes on to the owner
  -- of the room, with the id and the name of the client that asked.
  pub handle_join_room_requested_tag-asks :
      (a : ℕ) (r : Room) (o : Client) (cs : List ℕ) (rest : Block)
      → get_elem? w.g_rooms n ≡ some (addr a)
      → object w.rooms (addr a) ≡ some r
      → eqb_ℤ r.clients_count (pos max_clients_per_room) ≡ false
      → object w.clients r.owner ≡ some o
      → c.user.name ≡ string (init cs ++ some 0 ∷ rest)
      → NonZero cs
      → IsBytes cs
      → handle_join_room_requested_tag client reader w
        ≡ (transmit (record {
          sockfd = o.sockfd;
          bytes = wire (pos 50) (int32_bytes c.user.id ++ string_bytes cs);
        })
              >> pure tt)
            w
  unfolding handle_join_room_requested_tag room_get create_join_room_requested_message room_is_full
  handle_join_room_requested_tag-asks a r o cs rest e h free owner named text bytes =
      let ((m, _), e', (same, carries)) =
        client_message-Carries w join_room_requested_tag client c cs rest live named text bytes in
      rw
        (
          (lso_reader_read_int32-Remains reader b0 b1 b2 b3 bs rem).0,
          id,
          e,
          get_room-live (addr a) w r h,
          free,
          e',
          same,
          get_room-live (addr a) w r h,
        )
        (reply_lem w r.owner o join_room_requested_tag _ (ok (m, w)) owner
          ((m, w), refl, (refl, carries)))
