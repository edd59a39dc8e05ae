-- ===== src/Messages/Listing.antt =====
-- The bytes of a room and of the list of all rooms (server/room.c, server/messages.c).
use lso_server.Base.{
  ℕ, ◌≡◌, refl, ap, sym, subst, ◌∙◌, ◌⊎◌, inl, inr, false, List, [], ◌∷◌, ◌++◌, some, ℤ, pos,
  Returns, append_assoc, append-nil,
}
use lso_server.Memory.{Block}
use lso_server.Memory.Laws.{init, NonZero, strlen-init}
use lso_server.Utils.RoundTrip.{int32_bytes}
use lso_server.Tags.{request_rooms_accepted_tag}
use lso_server.Writer.{Writer}
use lso_server.Writer.Holds.{Wrote, lso_writer_initialize-Wrote, lso_writer_write_int32-Wrote}
use lso_server.Writer.Strings.{IsBytes, string_bytes, lso_writer_write_string-Wrote}
use lso_server.Message.{Message}
use lso_server.Message.Wire.{Carries, message_create_from_writer-Carries}
use lso_server.World.{Pointer, null, Client, Room, World, object, string, is_null}
use lso_server.World.Laws.{get_room-live}
use lso_server.Client.{client_serialize}
use lso_server.Client.Sends.{client_serialize-Wrote}
use lso_server.Room.{max_clients_per_room, serialize_members, room_serialize}
use lso_server.Messages.{room_message, serialize_rooms, create_request_rooms_accepted_message}

-- The client at `p` is signed in, and its user is written as `bs`: the id, then the name.
pub record IsUser (w : World) (p : Pointer) (bs : List ℕ) : Type 0 where
  pub client : Client
  pub name : List ℕ
  pub rest : Block
  pub live : object w.clients p ≡ some client
  pub named : client.user.name ≡ string (init name ++ some 0 ∷ rest)
  pub text : NonZero name
  pub bytes : IsBytes name
  pub written : bs ≡ int32_bytes client.user.id ++ string_bytes name

-- The slots that are in use lead to such clients, and are written as `bs`, one after the other.
abbrev pub AreUsers : World → List Pointer → List ℕ → Type 0
AreUsers w [] bs = bs ≡ []
AreUsers w (p ∷ ps) bs =
    ((p ≡ null) × AreUsers w ps bs)
    ⊎ ((us : List ℕ) × (vs : List ℕ) × (is_null p ≡ false)
        × IsUser w p us
        × AreUsers w ps vs
        × (bs ≡ us ++ vs))

-- The room at `p` is written as `bs`: its id, the numbers of its members and of its slots, its
-- name, its owner and its members.
pub record IsListed (w : World) (p : Pointer) (bs : List ℕ) : Type 0 where
  pub room : Room
  pub name : List ℕ
  pub rest : Block
  pub owner : List ℕ
  pub members : List ℕ
  pub live : object w.rooms p ≡ some room
  pub named : room.name ≡ init name ++ some 0 ∷ rest
  pub text : NonZero name
  pub bytes : IsBytes name
  pub owned : IsUser w room.owner owner
  pub users : AreUsers w room.clients members
  pub written :
      bs
      ≡ int32_bytes (pos room.id)
        ++ (int32_bytes room.clients_count
            ++ (int32_bytes (pos max_clients_per_room)
                ++ (string_bytes name ++ (owner ++ members))))

abbrev pub AreListed : World → List Pointer → List ℕ → Type 0
AreListed w [] bs = bs ≡ []
AreListed w (p ∷ ps) bs =
    ((p ≡ null) × AreListed w ps bs)
    ⊎ ((us : List ℕ) × (vs : List ℕ) × (is_null p ≡ false)
        × IsListed w p us
        × AreListed w ps vs
        × (bs ≡ us ++ vs))

-- A command that appends `us` to what a writer has, and changes nothing else.
abbrev Appends : World → List ℕ → List ℕ → Writer × World → Type 0
Appends w bs us (writer, w') = (w' ≡ w) × Wrote writer (bs ++ us)

client_serialize-IsUser :
    (w : World) (p : Pointer) (us : List ℕ) (writer : Writer) (bs : List ℕ)
    → IsUser w p us
    → Wrote writer bs
    → Returns (Appends w bs us) (client_serialize p writer w)
client_serialize-IsUser w p us writer bs u h =
    let ((writer', w'), e, (same, h')) =
      client_serialize-Wrote w p u.client u.name u.rest writer bs u.live u.named u.text u.bytes h in
    ((writer', w'), e, (same, subst (λ (l : List ℕ). Wrote writer' (bs ++ l)) (sym u.written) h'))

serialize_members-Appends :
    (w : World) (ps : List Pointer) (us : List ℕ) (writer : Writer) (bs : List ℕ)
    → AreUsers w ps us
    → Wrote writer bs
    → Returns (Appends w bs us) (serialize_members ps writer w)
unfolding serialize_members
serialize_members-Appends w [] us writer bs e h =
    ((writer, w), refl, (refl, subst (Wrote writer) (sym (append-nil bs) ∙ ap (◌++◌ bs) (sym e)) h))
serialize_members-Appends w (p ∷ ps) us writer bs (inl (empty, rest)) h =
    let (r, e, q) = serialize_members-Appends w ps us writer bs rest h in
    (r, rw (ap is_null empty) e, q)
serialize_members-Appends w (p ∷ ps) us writer bs (inr (vs, vs', used, user, rest, split)) h =
    let ((w1, _), e1, (same, h1)) = client_serialize-IsUser w p vs writer bs user h in
    let ((w2, w'), e2, (same', h2)) = serialize_members-Appends w ps vs' w1 (bs ++ vs) rest h1 in
    (
      (w2, w'),
      rw (used, e1, same) e2,
      (same', subst (Wrote w2) (append_assoc bs vs vs' ∙ ap (◌++◌ bs) (sym split)) h2),
    )

pub room_serialize-Appends :
    (w : World) (p : Pointer) (us : List ℕ) (writer : Writer) (bs : List ℕ)
    → IsListed w p us
    → Wrote writer bs
    → Returns (Appends w bs us) (room_serialize writer p w)
unfolding room_serialize
room_serialize-Appends w p us writer bs l h =
    let i = int32_bytes (pos l.room.id) in
    let k = int32_bytes l.room.clients_count in
    let s = int32_bytes (pos max_clients_per_room) in
    let t = string_bytes l.name in
    let (w1, e1, h1) = lso_writer_write_int32-Wrote writer bs h (pos l.room.id) in
    let (w2, e2, h2) = lso_writer_write_int32-Wrote w1 (bs ++ i) h1 l.room.clients_count in
    let (w3, e3, h3) =
      lso_writer_write_int32-Wrote w2 ((bs ++ i) ++ k) h2 (pos max_clients_per_room) in
    let (w4, e4, h4) =
      lso_writer_write_string-Wrote w3 (((bs ++ i) ++ k) ++ s) l.name (some 0 ∷ l.rest) h3
        l.bytes in
    let ((w5, _), e5, (same, h5)) =
      client_serialize-IsUser w l.room.owner l.owner w4 ((((bs ++ i) ++ k) ++ s) ++ t) l.owned h4 in
    let ((w6, w'), e6, (same', h6)) =
      serialize_members-Appends w l.room.clients l.members w5
        (((((bs ++ i) ++ k) ++ s) ++ t) ++ l.owner) l.users h5 in
    (
      (w6, w'),
      rw
          (
            get_room-live p w l.room l.live,
            e1,
            e2,
            e3,
            l.named,
            strlen-init l.name l.rest l.text,
            e4,
            e5,
            same,
          )
          e6,
      (
        same',
        subst (Wrote w6) (regroup bs i k s t l.owner l.members ∙ ap (◌++◌ bs) (sym l.written)) h6,
      ),
    )
  where
    regroup :
        (a b c d e f g : List ℕ)
        → (((((a ++ b) ++ c) ++ d) ++ e) ++ f) ++ g ≡ a ++ (b ++ (c ++ (d ++ (e ++ (f ++ g)))))
    regroup a b c d e f g = simp append_assoc

serialize_rooms-Appends :
    (w : World) (ps : List Pointer) (us : List ℕ) (writer : Writer) (bs : List ℕ)
    → AreListed w ps us
    → Wrote writer bs
    → Returns (Appends w bs us) (serialize_rooms ps writer w)
unfolding serialize_rooms
serialize_rooms-Appends w [] us writer bs e h =
    ((writer, w), refl, (refl, subst (Wrote writer) (sym (append-nil bs) ∙ ap (◌++◌ bs) (sym e)) h))
serialize_rooms-Appends w (p ∷ ps) us writer bs (inl (empty, rest)) h =
    let (r, e, q) = serialize_rooms-Appends w ps us writer bs rest h in
    (r, rw (ap is_null empty) e, q)
serialize_rooms-Appends w (p ∷ ps) us writer bs (inr (vs, vs', used, listed, rest, split)) h =
    let ((w1, _), e1, (same, h1)) = room_serialize-Appends w p vs writer bs listed h in
    let ((w2, w'), e2, (same', h2)) = serialize_rooms-Appends w ps vs' w1 (bs ++ vs) rest h1 in
    (
      (w2, w'),
      rw (used, e1, same) e2,
      (same', subst (Wrote w2) (append_assoc bs vs vs' ∙ ap (◌++◌ bs) (sym split)) h2),
    )

-- A message with one such room.
pub room_message-Carries :
    (w : World) (tag : ℤ) (p : Pointer) (bs : List ℕ)
    → IsListed w p bs
    → Returns (λ (s : Message × World). (s.1 ≡ w) × Carries s.0 tag bs) (room_message tag p w)
unfolding room_message
room_message-Carries w tag p bs listed =
    let (w0, e0, h0) = lso_writer_initialize-Wrote 1 in
    let ((w1, _), e1, (same, h1)) = room_serialize-Appends w p bs w0 [] listed h0 in
    let (m, e2, h2) = message_create_from_writer-Carries tag w1 bs h1 in
    ((m, w), rw (e0, e1, same, e2), (refl, h2))

-- If all rooms in the table, their owners and their members are there and signed in, the list of
-- rooms is made, with no change of state: it has each room, in the order of the table, with its
-- id, the numbers of its members and of its slots, its name, its owner and its members.
pub create_request_rooms_accepted_message-Carries :
    (w : World) (bs : List ℕ)
    → AreListed w w.g_rooms bs
    → Returns
        (λ (s : Message × World). (s.1 ≡ w) × Carries s.0 request_rooms_accepted_tag bs)
        (create_request_rooms_accepted_message w)
unfolding create_request_rooms_accepted_message
create_request_rooms_accepted_message-Carries w bs listed =
    let (w0, e0, h0) = lso_writer_initialize-Wrote 1 in
    let ((w1, _), e1, (same, h1)) = serialize_rooms-Appends w w.g_rooms bs w0 [] listed h0 in
    let (m, e2, h2) = message_create_from_writer-Carries request_rooms_accepted_tag w1 bs h1 in
    ((m, w), rw (e0, e1, same, e2), (refl, h2))
