-- ===== src/Handlers/Listing.antt =====
-- What a client that asks for the rooms is sent (server/client.c, `handle_request_rooms_tag`).
use lso_server.Base.{ℕ, ◌≡◌, List, some}
use lso_server.Tags.{request_rooms_accepted_tag}
use lso_server.Message.Wire.{wire}
use lso_server.World.{Pointer, Client, World, object, ◌>>◌, pure}
use lso_server.Client.{transmit}
use lso_server.Messages.Listing.{AreListed, create_request_rooms_accepted_message-Carries}
use lso_server.Handlers.{handle_request_rooms_tag}
use lso_server.Handlers.Replies.{reply_lem}

-- If all rooms in the table, their owners and their members are there and signed in, a client that
-- asks for the rooms gets one packet with all of them, in the order of the table: of each its id,
-- the numbers of its members and of its slots, its name, its owner and its members.
pub handle_request_rooms_tag-lists :
    (w : World) (client : Pointer) (c : Client) (bs : List ℕ)
    → object w.clients client ≡ some c
    → AreListed w w.g_rooms bs
    → handle_request_rooms_tag client w
      ≡ (transmit (record { sockfd = c.sockfd; bytes = wire request_rooms_accepted_tag bs })
            >> pure tt)
          w
unfolding handle_request_rooms_tag
handle_request_rooms_tag-lists w client c bs live listed =
    reply_lem w client c request_rooms_accepted_tag bs _ live
      (create_request_rooms_accepted_message-Carries w bs listed)
