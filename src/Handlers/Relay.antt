-- ===== src/Handlers/Relay.antt =====
-- A text that a client sends to its room, as packets (server/client.c, server/room.c).
use lso_server.Base.{
  ℕ, suc, ◌≡◌, refl, ◌⊎◌, inl, inr, List, [], ◌∷◌, ◌++◌, Option, some, none, ℤ, pos, ok, Returns,
  length, signed,
}
use lso_server.Memory.{Block}
use lso_server.Memory.Laws.{init, NonZero}
use lso_server.Utils.Decode.{pattern32}
use lso_server.Utils.RoundTrip.{int32_bytes}
use lso_server.Reader.{Reader}
use lso_server.Reader.Remains.{Remains, lso_reader_read_string-Remains}
use lso_server.Writer.Holds.{lso_writer_initialize-Wrote}
use lso_server.Writer.Strings.{IsBytes, string_bytes, lso_writer_write_string-Wrote}
use lso_server.Message.{Message}
use lso_server.Message.Wire.{Carries, wire, message_create_from_writer-Carries}
use lso_server.World.{Pointer, null, wild, addr, string, Client, Room, Packet, World, object}
use lso_server.World.Laws.{get_client-live, get_room-live}
use lso_server.Client.Posted.{posted, client_send-posted}
use lso_server.Client.Sends.{client_serialize-Wrote}
use lso_server.ClientPool.Lookup.{Slots}
use lso_server.Room.{send_all, room_send_message}
use lso_server.Messages.{text_chars, create_send_message_message}
use lso_server.Handlers.{handle_message_received_tag}

-- One packet for each client, in the order of the slots.
abbrev pub addressed : Option Client → List ℕ → List Packet
addressed none bytes = []
addressed (some c) bytes = record { sockfd = c.sockfd; bytes = bytes } ∷ []

abbrev pub packets : List (Option Client) → List Pointer → List ℕ → List Packet
packets heap [] bytes = []
packets heap (p ∷ ps) bytes = addressed (object heap p) bytes ++ packets heap ps bytes

Sends : World → List Pointer → Message → List ℕ → Type 0
Sends w ps m bytes =
    send_all ps m w
    ≡ ok (tt, record w { sent = posted w.outside w.sent (packets w.clients ps bytes) })

send_next :
    (w : World) (a : ℕ) (ps : List Pointer) (m : Message) (tag : ℤ) (bs : List ℕ)
    → Carries m tag bs
    → (addr a ≡ null) ⊎ ((c : Client) × (object w.clients (addr a) ≡ some c))
    → ((sent : List Packet) → Sends (record w { sent = sent }) ps m (wire tag bs))
    → Sends w (addr a ∷ ps) m (wire tag bs)
unfolding Sends send_all
send_next w a ps m tag bs carries (inl e) rest = cc
send_next w a ps m tag bs carries (inr (c, e)) rest =
    rw (client_send-posted w (addr a) c m tag bs e carries, rest _, e)

send_all-packets :
    (w : World) (ps : List Pointer) (m : Message) (tag : ℤ) (bs : List ℕ)
    → Slots w ps
    → Carries m tag bs
    → Sends w ps m (wire tag bs)
unfolding Sends send_all
send_all-packets w [] m tag bs slots carries = refl
send_all-packets w (null ∷ ps) m tag bs slots carries =
    send_all-packets w ps m tag bs (λ i. slots (suc i)) carries
send_all-packets w (wild ∷ ps) m tag bs slots carries = absurd (nothing (slots 0 wild refl))
  where
    nothing : (wild ≡ null) ⊎ ((c : Client) × (object w.clients wild ≡ some c)) → ⊥
    nothing (inl e) = cc
    nothing (inr (c, e)) = cc
send_all-packets w (addr a ∷ ps) m tag bs slots carries =
    send_next w a ps m tag bs carries (slots 0 (addr a) refl)
      λ sent. send_all-packets (record w { sent = sent }) ps m tag bs (λ i. slots (suc i)) carries

-- What is sent to a room goes to each of its slots that is in use.
pub room_send_message-packets :
    (w : World) (a : ℕ) (r : Room) (m : Message) (tag : ℤ) (bs : List ℕ)
    → object w.rooms (addr a) ≡ some r
    → Slots w r.clients
    → Carries m tag bs
    → room_send_message (addr a) m w
      ≡ ok (
        tt,
        record w { sent = posted w.outside w.sent (packets w.clients r.clients (wire tag bs)) },
      )
unfolding room_send_message
room_send_message-packets w a r m tag bs there slots carries =
    rw (get_room-live (addr a) w r there)
      (unfold Sends in send_all-packets w r.clients m tag bs slots carries)

-- The characters of a text are read, and what is behind them if there are any.
text_chars-length :
    (cs : List ℕ) (rest : Block)
    → (rest' : Block) × (text_chars (string (init cs ++ rest)) (pos (length cs))
        ≡ ok (init cs ++ rest'))
text_chars-length [] rest = ([], refl)
text_chars-length (c ∷ cs) rest = (rest, refl)

-- The message carries the id and the name of the sender, then the text.
create_send_message_message-Carries :
    (w : World) (p : Pointer) (c : Client) (name : List ℕ) (after : Block) (cs : List ℕ)
    (rest : Block)
    → object w.clients p ≡ some c
    → c.user.name ≡ string (init name ++ some 0 ∷ after)
    → NonZero name
    → IsBytes name
    → IsBytes cs
    → Returns
        (λ (s : Message × World).
          (s.1 ≡ w)
          × Carries s.0 (pos 11) (int32_bytes c.user.id ++ string_bytes name ++ string_bytes cs))
        (create_send_message_message p (string (init cs ++ rest)) (pos (length cs)) w)
unfolding create_send_message_message
create_send_message_message-Carries w p c name after cs rest live named text bytes chars =
    let (w0, e0, h0) = lso_writer_initialize-Wrote (length cs) in
    let ((w1, _), e1, (same, h1)) =
      client_serialize-Wrote w p c name after w0 [] live named text bytes h0 in
    let (rest', found) = text_chars-length cs rest in
    let (w2, e2, h2) = lso_writer_write_string-Wrote w1 _ cs rest' h1 chars in
    let (m, e3, h3) = message_create_from_writer-Carries (pos 11) w2 _ h2 in
    ((m, w), rw (e0, e1, same, found, e2, e3), (refl, h3))

-- The text of a signed-in client is sent to each member of its room, in the order of the slots and
-- to nobody else, with the id and the name of the sender before it and one zero more behind it
-- than it came with; what goes out are those packets whose send succeeds, and nothing else
-- changes.
pub handle_message_received_tag-relays :
    (w : World) (client : Pointer) (c : Client) (a : ℕ) (r : Room) (reader : Reader)
    (b0 b1 b2 b3 : ℕ) (cs bs name : List ℕ) (after : Block)
    → object w.clients client ≡ some c
    → c.room ≡ addr a
    → object w.rooms (addr a) ≡ some r
    → Slots w r.clients
    → c.user.name ≡ string (init name ++ some 0 ∷ after)
    → NonZero name
    → IsBytes name
    → Remains reader (b0 ∷ b1 ∷ b2 ∷ b3 ∷ (cs ++ bs))
    → signed 32 (pattern32 b0 b1 b2 b3) ≡ pos (length cs)
    → IsBytes cs
    → IsBytes bs
    → handle_message_received_tag client reader w
      ≡ ok (
        tt,
        record w {
          sent = posted w.outside w.sent (
              packets w.clients r.clients
                (wire (pos 11) (int32_bytes c.user.id ++ string_bytes name ++ string_bytes cs)));
        },
      )
unfolding handle_message_received_tag
handle_message_received_tag-relays w client c a r reader b0 b1 b2 b3 cs bs name after live inside
      room slots named text bytes rem len chars others =
    let ((m, _), e, (same, carries)) =
      create_send_message_message-Carries w client c name after cs (some 0 ∷ []) live named text
        bytes chars in
    rw
      (
        get_client-live client w c live,
        inside,
        (lso_reader_read_string-Remains reader b0 b1 b2 b3 cs bs rem len chars others).0,
        e,
        same,
      )
      (room_send_message-packets w a r m (pos 11) _ room slots carries)
