-- ===== src/Soundness/Polite.antt =====
-- The messages that the handlers of server/client.c can deal with: each case names what its handler
-- does not check.
use lso_server.Base.{
  ℕ, ◌<◌, ◌≡◌, ◌≢◌, List, ◌∷◌, ◌++◌, some, ℤ, pos, false, ok, signed, length, get_elem?, ◌⊎◌,
}
use lso_server.Utils.Decode.{pattern32}
use lso_server.Tags.{
  request_rooms_tag, join_room_request_tag, join_room_accepted_tag, join_room_refused_tag,
  send_message_tag, leave_room_requested_tag, sign_up_requested_tag, sign_in_requested_tag,
  room_create_requested_tag,
}
use lso_server.Reader.Spelled.{Spells}
use lso_server.Writer.Strings.{IsBytes}
use lso_server.World.{null, addr, Client, Room, World, object}
use lso_server.ClientPool.{client_pool_get}
use lso_server.Room.{max_rooms, max_room_name}
use lso_server.Database.{insert_query, select_query}
use lso_server.Handlers.Replies.{is_handled}
use lso_server.Soundness.{IsSigned}

-- `xs` starts with four bytes that are read as `z`, and `ys` stands behind them.
pub record Counts (xs : List ℕ) (z : ℤ) (ys : List ℕ) : Type 0 where
  pub b0 : ℕ
  pub b1 : ℕ
  pub b2 : ℕ
  pub b3 : ℕ
  pub split : xs ≡ b0 ∷ b1 ∷ b2 ∷ b3 ∷ ys
  pub value : signed 32 (pattern32 b0 b1 b2 b3) ≡ z

-- A room with the id `n`, of which no member has the user id `z`.
pub record HasPlace (w : World) (n : ℕ) (z : ℤ) : Type 0 where
  pub place : ℕ
  pub room : Room
  pub live : object w.rooms (addr place) ≡ some room
  pub numbered : room.id ≡ n
  pub new :
      (j k : ℕ) (x : Client)
      → get_elem? room.clients j ≡ some (addr k)
      → object w.clients (addr k) ≡ some x
      → x.user.id ≢ z

-- A message of the client `c`, with a tag and a payload. It has to be signed in to ask for a room
-- or make one; an id of a room has to be one of the table; the client that it accepts must not be a
-- member twice, and the one that it refuses must be there; texts have to be as long as they say,
-- and fit into their buffers; and a client in a room makes no other one.
pub data IsPolite (w : World) (c : Client) (tag : ℤ) (xs : List ℕ) : Type 0 where
  lists : tag ≡ request_rooms_tag → IsPolite w c tag xs
  asks :
      (n : ℕ) (ys : List ℕ)
      → tag ≡ join_room_request_tag
      → Counts xs (pos n) ys
      → n < max_rooms
      → IsSigned c.user.name
      → IsPolite w c tag xs
  accepts :
      (z : ℤ) (n : ℕ) (ys zs : List ℕ)
      → tag ≡ join_room_accepted_tag
      → Counts xs z ys
      → Counts ys (pos n) zs
      → HasPlace w n z
      → IsPolite w c tag xs
  refuses :
      (z : ℤ) (k : ℕ) (ys : List ℕ)
      → tag ≡ join_room_refused_tag
      → Counts xs z ys
      → client_pool_get z w ≡ ok (addr k, w)
      → IsPolite w c tag xs
  says :
      (cs ys : List ℕ)
      → tag ≡ send_message_tag
      → (c.room ≡ null) ⊎ (Counts xs (pos (length cs)) (cs ++ ys) × IsBytes cs × IsBytes ys)
      → IsPolite w c tag xs
  leaves : tag ≡ leave_room_requested_tag → IsPolite w c tag xs
  makes :
      (name ys : List ℕ)
      → tag ≡ room_create_requested_tag
      → Spells xs name ys
      → IsBytes name
      → length name < max_room_name
      → w.counter_room < max_rooms
      → c.room ≡ null
      → IsSigned c.user.name
      → IsPolite w c tag xs
  signs_up :
      (user pass ys zs : List ℕ)
      → tag ≡ sign_up_requested_tag
      → Spells xs user ys
      → Spells ys pass zs
      → length (insert_query user pass) < 256
      → IsPolite w c tag xs
  signs_in :
      (user pass ys zs : List ℕ)
      → tag ≡ sign_in_requested_tag
      → Spells xs user ys
      → Spells ys pass zs
      → length (select_query user pass) < 256
      → IsPolite w c tag xs
  strays : is_handled tag ≡ false → IsPolite w c tag xs
