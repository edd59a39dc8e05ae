-- ===== src/Handlers/Refusal.antt =====
-- How the owner of a room turns a client away (server/client.c, `handle_join_room_refused_tag`).
use lso_server.Base.{ℕ, ◌≡◌, refl, List, ◌∷◌, [], some, ok, fault, signed}
use lso_server.Utils.Decode.{pattern32}
use lso_server.Reader.{Reader}
use lso_server.Reader.Remains.{Remains, lso_reader_read_int32-Remains}
use lso_server.Message.Wire.{wire, message_create_empty-Carries, message_to_buffer-wire}
use lso_server.Tags.{join_room_refused_tag}
use lso_server.World.{Pointer, null, Client, World, object, ◌>>◌, pure}
use lso_server.World.Laws.{get_client-live, get_client-dead}
use lso_server.Client.{transmit, client_send}
use lso_server.ClientPool.{client_pool_get}
use lso_server.Messages.{create_join_room_refused_message}
use lso_server.Handlers.{handle_join_room_refused_tag}
use lso_server.Handlers.Replies.{reply_lem}

-- A live client refuses another one by its id: if the pool search finds a live client, it gets the
-- tag of a refusal with no payload, and nothing else happens; if the search returns null, the
-- server reads through it.
pub handle_join_room_refused_tag-tells :
    (w : World) (client other : Pointer) (c : Client) (reader : Reader) (b0 b1 b2 b3 : ℕ)
    (bs : List ℕ)
    → object w.clients client ≡ some c
    → Remains reader (b0 ∷ b1 ∷ b2 ∷ b3 ∷ bs)
    → client_pool_get (signed 32 (pattern32 b0 b1 b2 b3)) w ≡ ok (other, w)
    → ((d : Client)
        → object w.clients other ≡ some d
        → handle_join_room_refused_tag client reader w
          ≡ (transmit (record { sockfd = d.sockfd; bytes = wire join_room_refused_tag [] })
                >> pure tt)
              w)
      × (other ≡ null → handle_join_room_refused_tag client reader w ≡ fault)
unfolding handle_join_room_refused_tag create_join_room_refused_message client_send
handle_join_room_refused_tag-tells w client other c reader b0 b1 b2 b3 bs live rem found =
    let (m, e, carries) = message_create_empty-Carries join_room_refused_tag in
    let read = (lso_reader_read_int32-Remains reader b0 b1 b2 b3 bs rem).0 in
    (
      λ d there.
          rw (read, found, get_client-live client w c live)
            (reply_lem w other d join_room_refused_tag [] _ there ((m, w), rw e, (refl, carries))),
      λ nobody. rw (
        read,
        found,
        get_client-live client w c live,
        e,
        message_to_buffer-wire m join_room_refused_tag [] carries,
        nobody,
        get_client-dead null w refl,
      ),
    )
