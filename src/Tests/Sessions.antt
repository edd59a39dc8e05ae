-- ===== src/Tests/Sessions.antt =====
-- Connections, rooms and messages of concrete clients.
use lso_server.Base.{ℕ, ◌≡◌, refl, List, [], ◌∷◌, ◌++◌, some, pos, ok, fault, arith, replicate}
use lso_server.Memory.Laws.{init}
use lso_server.Utils.RoundTrip.{int32_bytes}
use lso_server.Writer.Strings.{string_bytes}
use lso_server.Message.Wire.{wire}
use lso_server.World.{null, addr, string, codes, ◌>>◌, pure}
use lso_server.Client.{transmit}
use lso_server.ClientPool.{client_pool_get}
use lso_server.ClientPool.Lookup.{client_pool_get-Misses}
use lso_server.Room.{room_create}
use lso_server.Handlers.{handle_join_room_requested_tag, handle_message_received_tag}
use lso_server.Handlers.Replies.{handle_join_room_requested_tag-asks}
use lso_server.Handlers.Relay.{handle_message_received_tag-relays}
use lso_server.Handlers.Faults.{
  handle_join_room_requested_tag-beyond, room_create-long, handle_message_received_tag-short,
}
use lso_server.Invariant.{Inv}
use lso_server.Invariant.Members.{Accepted, accept_connection-Accepted}
use lso_server.Invariant.Steps.{Reachable-Inv}
use lso_server.Tests.Run.{willing, blank}
use lso_server.Tests.Data.{
  is_bytes-IsBytes, are_positive-NonZero, reading, reading-Remains, ann, bob, den, town, den-Slots,
  pool-Slots, two, two-Reachable, two-Inv, bob-Misses,
}

Reachable-Inv_example : Inv two
Reachable-Inv_example = Reachable-Inv willing two two-Reachable

accept_connection-Accepted_example : Accepted two (pos 6) blank
accept_connection-Accepted_example = accept_connection-Accepted two (pos 6) blank two-Inv

-- Bob stands in the third slot, and two clients are connected.
client_pool_get-Misses_example : client_pool_get (pos 8) town ≡ ok (null, town)
client_pool_get-Misses_example =
    client_pool_get-Misses town (pos 8) 2 pool-Slots refl (omega arith) (omega arith) bob-Misses

-- Bob asks for room 0, and ann gets his name.
handle_join_room_requested_tag-asks_example :
    handle_join_room_requested_tag (addr 1) (reading (0 ∷ 0 ∷ 0 ∷ 0 ∷ [])) town
    ≡ (transmit (record {
      sockfd = pos 4;
      bytes = wire (pos 50) (int32_bytes (pos 8) ++ string_bytes (codes "bob"));
    })
          >> pure tt)
        town
handle_join_room_requested_tag-asks_example =
    handle_join_room_requested_tag-asks town (addr 1) bob (reading (0 ∷ 0 ∷ 0 ∷ 0 ∷ [])) 0 0 0 0 []
      (reading-Remains (0 ∷ 0 ∷ 0 ∷ 0 ∷ []) refl) 0 refl refl 0 den ann (codes "bob") [] refl refl
      refl refl refl (are_positive-NonZero (codes "bob") refl) (is_bytes-IsBytes (codes "bob") refl)

handle_message_received_tag-relays_example :
    handle_message_received_tag (addr 0) (reading (0 ∷ 0 ∷ 0 ∷ 2 ∷ 104 ∷ 105 ∷ [])) town
    ≡ ok (
      tt,
      record town {
        sent =
            record {
              sockfd = pos 4;
              bytes =
                  wire (pos 11) (
                    int32_bytes (pos 7) ++ string_bytes (codes "ann") ++ string_bytes (codes "hi"));
            }
            ∷ [];
      },
    )
handle_message_received_tag-relays_example =
    handle_message_received_tag-relays town (addr 0) ann 0 den
      (reading (0 ∷ 0 ∷ 0 ∷ 2 ∷ 104 ∷ 105 ∷ [])) 0 0 0 2 (codes "hi") [] (codes "ann") [] refl refl
      refl den-Slots refl (are_positive-NonZero (codes "ann") refl)
      (is_bytes-IsBytes (codes "ann") refl) (reading-Remains (0 ∷ 0 ∷ 0 ∷ 2 ∷ 104 ∷ 105 ∷ []) refl)
      refl (is_bytes-IsBytes (codes "hi") refl) tt

handle_join_room_requested_tag-beyond_example :
    handle_join_room_requested_tag (addr 1) (reading (0 ∷ 0 ∷ 0 ∷ 2 ∷ [])) town ≡ fault
handle_join_room_requested_tag-beyond_example =
    handle_join_room_requested_tag-beyond town (addr 1) (reading (0 ∷ 0 ∷ 0 ∷ 2 ∷ [])) 0 0 0 2 [] 2
      (reading-Remains (0 ∷ 0 ∷ 0 ∷ 2 ∷ []) refl) refl (omega arith)

abbrev long_name : List ℕ
long_name = replicate 32 97

room_create-long_example : room_create (string (init long_name ++ some 0 ∷ [])) town ≡ fault
room_create-long_example =
    room_create-long town long_name [] (are_positive-NonZero long_name refl) (omega arith)

handle_message_received_tag-short_example :
    handle_message_received_tag (addr 0) (reading (104 ∷ [])) town ≡ fault
handle_message_received_tag-short_example =
    handle_message_received_tag-short town (addr 0) ann 0 (reading (104 ∷ [])) (104 ∷ []) refl refl
      (reading-Remains (104 ∷ []) refl) (omega arith)
