-- ===== src/Client/Sends.antt =====
-- What `client_send` and `client_serialize` put on the wire.
use lso_server.Base.{
  ℕ, ◌+◌, ◌≡◌, refl, ap, sym, subst, ◌∙◌, List, [], ◌∷◌, ◌++◌, some, ℤ, pos, ok, Returns, arith,
  length, length-append, append_assoc,
}
use lso_server.Memory.{Block, load, read_bytes, send_bytes}
use lso_server.Memory.Laws.{init, load-append, NonZero, strlen-init}
use lso_server.Utils.RoundTrip.{int32_bytes}
use lso_server.Writer.{Writer}
use lso_server.Writer.Holds.{Wrote, lso_writer_write_int32-Wrote}
use lso_server.Writer.Strings.{IsBytes, string_bytes, lso_writer_write_string-Wrote}
use lso_server.Message.{Message}
use lso_server.Message.Wire.{Carries, wire, message_to_buffer-wire}
use lso_server.World.{Pointer, Client, World, object, string}
use lso_server.World.Laws.{get_client-live}
use lso_server.Client.{transmit, client_send, client_serialize}

read_bytes-init :
    (m : Block) (bs : List ℕ) (i : ℕ)
    → i ≡ length m
    → read_bytes (m ++ init bs) (length bs) i ≡ ok bs
unfolding read_bytes load
read_bytes-init m [] i at = refl
read_bytes-init m (b ∷ bs) i at = rw (
  load-append m (some b ∷ init bs) {i = i} 0 (omega arith),
  ap (λ (x : Block). read_bytes x (length bs) (i + 1))
      (sym (append_assoc m (some b ∷ []) (init bs))),
  read_bytes-init (m ++ some b ∷ []) bs (i + 1) (omega (arith, length-append m (some b ∷ []))),
)

send_bytes-wire :
    (tag : ℤ) (bs : List ℕ)
    → send_bytes (init (wire tag bs)) (pos (length bs + 2)) ≡ ok (wire tag bs)
unfolding send_bytes
send_bytes-wire tag bs =
    ap (λ (n : ℕ). read_bytes (init (wire tag bs)) n 0) {y = length (wire tag bs)} (omega arith)
    ∙ read_bytes-init [] (wire tag bs) 0 refl

-- A message sent to a live client goes to its socket as one packet: the two bytes of the tag, then
-- the payload.
pub client_send-wire :
    (w : World) (p : Pointer) (c : Client) (m : Message) (tag : ℤ) (bs : List ℕ)
    → object w.clients p ≡ some c
    → Carries m tag bs
    → client_send p m w ≡ transmit (record { sockfd = c.sockfd; bytes = wire tag bs }) w
unfolding client_send
client_send-wire w p c m tag bs live carries =
    rw (message_to_buffer-wire m tag bs carries, get_client-live p w c live, send_bytes-wire tag bs)

-- Serialising a signed-in client returns, changes no state, and appends the id and then the name.
pub client_serialize-Wrote :
    (w : World) (p : Pointer) (c : Client) (cs : List ℕ) (rest : Block) (writer : Writer)
    (bs : List ℕ)
    → object w.clients p ≡ some c
    → c.user.name ≡ string (init cs ++ some 0 ∷ rest)
    → NonZero cs
    → IsBytes cs
    → Wrote writer bs
    → Returns
        (λ r. (r.1 ≡ w) × Wrote r.0 (bs ++ (int32_bytes c.user.id ++ string_bytes cs)))
        (client_serialize p writer w)
unfolding client_serialize
client_serialize-Wrote w p c cs rest writer bs live named text bytes wrote =
    let (w1, e1, h1) = lso_writer_write_int32-Wrote writer bs wrote c.user.id in
    let (w2, e2, h2) = lso_writer_write_string-Wrote w1 _ cs (some 0 ∷ rest) h1 bytes in
    (
      (w2, w),
      rw (get_client-live p w c live, e1, named, strlen-init cs rest text, e2),
      (refl, subst (Wrote w2) (append_assoc bs (int32_bytes c.user.id) (string_bytes cs)) h2),
    )
