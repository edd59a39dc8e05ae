-- ===== src/Message/Received.antt =====
-- What `message_create_from_byte_buffer` makes of the bytes of one `read`.
use lso_server.Base.{
  ℕ, ◌+◌, ◌-◌, ◌<◌, ◌≡◌, refl, ap, sym, ◌∙◌, List, [], ◌∷◌, ℤ, pos, ok, fault, Returns, ◌>>=◌,
  arith, length, signed, int8, shr, int8-lt, append-nil, pos--ℤ,
}
use lso_server.Memory.{load}
use lso_server.Memory.Laws.{init}
use lso_server.Buffer.{byte_buffer_create_from_bytes}
use lso_server.Buffer.Holds.{exactly, byte_buffer_create_from_bytes_lem, byte_buffer_clone-exactly}
use lso_server.Utils.{get, read_int16}
use lso_server.Utils.Decode.{pattern16, read_int16-pattern16}
use lso_server.Writer.Strings.{IsBytes}
use lso_server.Reader.Remains.{Remains}
use lso_server.Message.{
  Message, message_create_from_byte_buffer, message_to_reader, message_to_buffer,
}
use lso_server.Message.Wire.{Carries, wire, message_to_buffer-wire}

-- A message with the tag `tag`, whose reader is at the start of `bs`, the end of its block.
pub record Delivers (m : Message) (tag : ℤ) (bs : List ℕ) : Type 0 where
  pub tagged : m.tag ≡ tag
  pub remains : Remains (message_to_reader m) bs
  pub ends : remains.rest ≡ []

abbrev delivered : ℕ → ℕ → List ℕ → Message
delivered b0 b1 bs = record {
  tag = signed 16 (pattern16 b0 b1);
  buffer = record (exactly (b0 ∷ b1 ∷ bs)) { count = pos (length bs); offset = 2 };
}

message_create_from_byte_buffer_lem :
    (b0 b1 : ℕ) (bs : List ℕ)
    → b0 < 256
    → b1 < 256
    → message_create_from_byte_buffer (exactly (b0 ∷ b1 ∷ bs)) ≡ ok (delivered b0 b1 bs)
unfolding message_create_from_byte_buffer get load
message_create_from_byte_buffer_lem b0 b1 bs h0 h1 =
    rw
      (
        byte_buffer_clone-exactly b0 (b1 ∷ bs),
        read_int16-pattern16 (exactly (b0 ∷ b1 ∷ bs)) 0 b0 b1 refl refl h0 h1,
        pos--ℤ (length (b0 ∷ b1 ∷ bs)) 2 (omega arith),
      )
      (ap
        (λ (n : ℕ). ok (record (delivered b0 b1 bs) {
          buffer = record (exactly (b0 ∷ b1 ∷ bs)) { count = pos n; offset = 2 };
        }))
        {x = length (b0 ∷ b1 ∷ bs) - 2} (omega arith))

delivered-Delivers :
    (b0 b1 : ℕ) (bs : List ℕ)
    → IsBytes bs
    → Delivers (delivered b0 b1 bs) (signed 16 (pattern16 b0 b1)) bs
unfolding message_to_reader
delivered-Delivers b0 b1 bs bytes = record {
  tagged = refl;
  remains = record {
    front = init (b0 ∷ b1 ∷ []);
    rest = [];
    cells = rw append-nil;
    at = refl;
    count = ap pos (omega arith);
    bytes = bytes;
  };
  ends = refl;
}

-- A buffer of at least two bytes becomes a message whose tag is the first two, with a reader at
-- the others.
pub message_create_from_byte_buffer-Delivers :
    (b0 b1 : ℕ) (bs : List ℕ)
    → IsBytes (b0 ∷ b1 ∷ bs)
    → Returns
        (λ m. Delivers m (signed 16 (pattern16 b0 b1)) bs)
        (message_create_from_byte_buffer (exactly (b0 ∷ b1 ∷ bs)))
message_create_from_byte_buffer-Delivers b0 b1 bs bytes = (
  delivered b0 b1 bs,
  message_create_from_byte_buffer_lem b0 b1 bs bytes.0 bytes.1.0,
  delivered-Delivers b0 b1 bs bytes.1.1,
)

-- A buffer of a single byte makes message_create_from_byte_buffer read the tag beyond the end of
-- the block.
pub message_create_from_byte_buffer_one_byte :
    (b : ℕ) → message_create_from_byte_buffer (exactly (b ∷ [])) ≡ fault
unfolding message_create_from_byte_buffer read_int16 get load
message_create_from_byte_buffer_one_byte b = rw (byte_buffer_clone-exactly b [])

-- The buffer of a message that is sent, copied by the `read` at the other end.
received-exactly :
    (tag : ℤ) (bs : List ℕ)
    → byte_buffer_create_from_bytes (pos (length bs + 2)) (init (wire tag bs))
      ≡ ok (exactly (wire tag bs))
received-exactly tag bs =
    ap (λ (n : ℕ). byte_buffer_create_from_bytes (pos n) (init (wire tag bs)))
      {y = length (wire tag bs)} (omega arith)
    ∙ ap (byte_buffer_create_from_bytes (pos (length (wire tag bs))))
        (sym (append-nil (init (wire tag bs))))
    ∙ byte_buffer_create_from_bytes_lem (int8 (shr tag 8)) (int8 tag ∷ bs) []

pattern16-tag :
    (tag : ℕ)
    → tag < 128
    → signed 16 (pattern16 (int8 (shr (pos tag) 8)) (int8 (pos tag))) ≡ pos tag
pattern16-tag tag h = ground arith

-- A message with a tag below 128 that is put into a buffer, copied and parsed at the other end
-- arrives with the same tag, and its reader stands at the start of the same payload.
pub message_roundtrip :
    (m : Message) (tag : ℕ) (bs : List ℕ)
    → Carries m (pos tag) bs
    → tag < 128
    → IsBytes bs
    → Returns
        (λ m'. Delivers m' (pos tag) bs)
        (message_to_buffer m >>= λ bf.
          byte_buffer_create_from_bytes bf.count bf.buffer >>= message_create_from_byte_buffer)
message_roundtrip m tag bs carries small bytes =
    rw
      (
        message_to_buffer-wire m (pos tag) bs carries,
        received-exactly (pos tag) bs,
        ← pattern16-tag tag small,
      )
      (message_create_from_byte_buffer-Delivers (int8 (shr (pos tag) 8)) (int8 (pos tag)) bs
        (int8-lt (shr (pos tag) 8), (int8-lt (pos tag), bytes)))
