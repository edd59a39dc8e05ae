-- ===== src/Server.antt =====
-- The thread of one client, `client_handler` of server/client.c, and the loop of server/main.c
-- that accepts connections. The socket calls before the loop are left out.
pub mod Farewell
pub mod Race
pub mod LostUpdate
use lso_server.Base.{ℕ, List, [], ◌∷◌, ◌++◌, some, ℤ, pos, if◌then◌else◌, length, drop, replicate}
use lso_server.Memory.{Block, malloc_bytes}
use lso_server.Memory.Laws.{init}
use lso_server.Buffer.{byte_buffer_create_from_bytes}
use lso_server.Message.{message_create_from_byte_buffer}
use lso_server.World.{
  Pointer, CString, is_no_string, User, Outside, World, Cmd, pure, ◌>>=◌, ◌>>◌, lift, get_client,
  free_client, is_null, null,
}
use lso_server.ClientPool.{client_pool_add, client_pool_remove, client_pool_is_full, max_clients}
use lso_server.Room.{max_rooms}
use lso_server.Database.{text}
use lso_server.Client.{client_create}
use lso_server.Handlers.{on_message_received, handle_leave_room_tag}

abbrev pub buffer_size : ℕ
buffer_size = 1024

-- One round of the loop: `read` left `bytes`, at least one, at the start of `msg_buffer`.
unfoldable pub receive : Pointer → Block → ℕ → Cmd (Unit {0})
receive client msg_buffer size = do
  byte_buffer ← lift (byte_buffer_create_from_bytes (pos size) msg_buffer)
  message ← lift (message_create_from_byte_buffer byte_buffer)
  on_message_received client message

-- The last line about a client has its name, if it has one.
unfoldable pub print_left : CString → Cmd (Unit {0})
print_left name = if is_no_string name then pure tt else (do _ ← text name; pure tt)

-- What follows the loop.
unfoldable pub disconnect : Pointer → Cmd (Unit {0})
disconnect client = do
  c ← get_client client
  (if is_null c.room then pure tt else handle_leave_room_tag client)
  d ← get_client client
  print_left d.user.name
  _ ← client_pool_remove client
  free_client client

-- The loop, over what each `read` returns. It ends with a `read` of nothing.
unfoldable pub handler_loop : Pointer → Block → List (List ℕ) → Cmd (Unit {0})
handler_loop client msg_buffer [] = pure tt
handler_loop client msg_buffer ([] ∷ reads) = pure tt
handler_loop client msg_buffer ((b ∷ bs) ∷ reads) =
    let rest = handler_loop client (replicate buffer_size (some 0)) reads in
    (do receive client (init (b ∷ bs) ++ drop (length (b ∷ bs)) msg_buffer) (length (b ∷ bs)); rest)

unfoldable pub client_handler : Pointer → List (List ℕ) → Cmd (Unit {0})
client_handler client reads =
    if is_null client
    then pure tt
    else (do handler_loop client (malloc_bytes buffer_size) reads; disconnect client)

-- A connection is closed again if the pool is full; `raw` is what `client_create` finds in the
-- object that it allocates.
unfoldable pub accept_connection : ℤ → User → Cmd (Unit {0})
accept_connection connfd raw = do
  full ← client_pool_is_full
  if full
      then pure tt
      else (do client ← client_create connfd raw; _ ← client_pool_add client; pure tt)

-- The globals before the first connection.
abbrev pub start : Outside → World
start outside = record {
  outside = outside;
  clients = [];
  rooms = [];
  g_rooms = replicate max_rooms null;
  pool = record { clients = replicate max_clients null; size = pos 0 };
  counter_client = 0;
  counter_room = 0;
  sent = [];
  queries = [];
}
