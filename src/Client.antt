-- ===== src/Client.antt =====
-- server/client.h and the operations of server/client.c on one client: `client_create`,
-- `client_send`, `client_is_logged`, `client_serialize`. The handlers are in `Handlers`.
pub mod Sends
pub mod Posted
use lso_server.Base.{
  ℕ, zero, suc, ◌+◌, Bool, true, false, not, List, [], ◌∷◌, ◌++◌, ℤ, pos, negsuc, Result, ok, fault,
  length, if◌then◌else◌,
}
use lso_server.Memory.{strlen, send_bytes}
use lso_server.Buffer.{ByteBuffer}
use lso_server.Writer.{Writer, lso_writer_write_int32, lso_writer_write_string}
use lso_server.Message.{Message, message_to_buffer}
use lso_server.World.{
  Pointer, null, User, Client, World, Packet, Cmd, pure, ◌>>=◌, ◌>>◌, lift, gets, modify,
  get_client, malloc_client, deref, is_no_string,
}

-- Whether the packet went out, by what lies outside.
unfoldable pub transmit : Packet → Cmd Bool
transmit packet w =
    if w.outside.sends w.sent packet
    then ok (true, record w { sent = w.sent ++ packet ∷ [] })
    else ok (false, w)

unfoldable pub client_send : Pointer → Message → Cmd Bool
client_send p m = do
  buffer ← lift (message_to_buffer m)
  c ← get_client p
  bytes ← lift (send_bytes buffer.buffer buffer.count)
  transmit (record { sockfd = c.sockfd; bytes = bytes })

unfoldable client_is_logged : Pointer → Cmd Bool
client_is_logged p = do c ← get_client p; pure (not (is_no_string c.user.name))

unfoldable pub client_serialize : Pointer → Writer → Cmd Writer
client_serialize p writer = do
  c ← get_client p
  writer ← lift (lso_writer_write_int32 writer c.user.id)
  name ← lift (deref c.user.name)
  n ← lift (strlen name)
  lift (lso_writer_write_string writer name (pos n))

-- `raw` is what `malloc` left in the new object: `user` is not assigned here. The thread that is
-- started runs `client_handler`.
unfoldable pub client_create : ℤ → User → Cmd Pointer
client_create connfd raw = do
  uid ← gets (λ w. w.counter_client)
  modify (λ w. record w { counter_client = w.counter_client + 1 })
  malloc_client (record { room = null; sockfd = connfd; uid = uid; user = raw })
