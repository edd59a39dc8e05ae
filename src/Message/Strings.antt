-- ===== src/Message/Strings.antt =====
-- A string from one end of a connection to the other: lso_writer.c, message.c, lso_reader.c.
use lso_server.Base.{
  ℕ, ◌+◌, ◌<◌, ◌≡◌, ap, sym, subst, ◌∙◌, List, [], ◌∷◌, ◌++◌, some, pos, Returns, Returns-bind,
  ◌>>=◌, arith, length, signed, shr, int8, int8-lt, append_assoc, append-nil, length-append,
  map-append,
}
use lso_server.Memory.{Block}
use lso_server.Memory.Laws.{init}
use lso_server.Buffer.{byte_buffer_create_from_bytes}
use lso_server.Utils.Decode.{pattern32}
use lso_server.Utils.RoundTrip.{int32_bytes}
use lso_server.Writer.{lso_writer_initialize, lso_writer_write_string}
use lso_server.Writer.Holds.{lso_writer_initialize-Wrote}
use lso_server.Writer.Strings.{IsBytes, string_bytes, lso_writer_write_string-Wrote}
use lso_server.Reader.{Reader, StringRead, lso_reader_read_string}
use lso_server.Reader.Remains.{Remains, lso_reader_read_string-Remains}
use lso_server.Message.{
  message_create_from_writer, message_create_from_byte_buffer, message_to_reader, message_to_buffer,
}
use lso_server.Message.Wire.{message_create_from_writer-Carries}
use lso_server.Message.Received.{message_roundtrip}

-- The string `cs` with its terminator, and the one that the reader adds.
abbrev pub Receives : List ℕ → StringRead → Type 0
Receives cs read =
    (read.length ≡ pos (length cs + 1)) × (read.string ≡ some (init cs ++ some 0 ∷ some 0 ∷ []))

short_length :
    (n : ℕ)
    → n < 128
    → signed 32 (
        pattern32
          (int8 (shr (pos n) 24))
          (int8 (shr (pos n) 16))
          (int8 (shr (pos n) 8))
          (int8 (pos n)))
      ≡ pos n
short_length n h = ground arith

IsBytes-append : (xs ys : List ℕ) → IsBytes xs → IsBytes ys → IsBytes (xs ++ ys)
IsBytes-append [] ys h k = k
IsBytes-append (x ∷ xs) ys h k = (h.0, IsBytes-append xs ys h.1 k)

string_bytes-IsBytes : (cs : List ℕ) → IsBytes cs → IsBytes (string_bytes cs)
string_bytes-IsBytes cs h =
    let n = pos (length cs + 1) in
    (
      int8-lt (shr n 24),
      (
        int8-lt (shr n 16),
        (int8-lt (shr n 8), (int8-lt n, IsBytes-append cs (0 ∷ []) h (omega arith, tt))),
      ),
    )

read-Receives :
    (r : Reader) (cs : List ℕ)
    → Remains r (string_bytes cs)
    → length cs < 127
    → IsBytes cs
    → Returns (Receives cs) (lso_reader_read_string r)
read-Receives r cs rem short bytes = (
  _,
  (lso_reader_read_string-Remains r _ _ _ _ (cs ++ 0 ∷ []) []
      (subst (Remains r)
        (ap (◌++◌ (int32_bytes (pos (length cs + 1)))) (sym (append-nil (cs ++ 0 ∷ [])))) rem)
      (short_length (length cs + 1) (omega arith) ∙ ap pos (sym (length-append cs (0 ∷ []))))
      (IsBytes-append cs (0 ∷ []) bytes (omega arith, tt)) tt).0,
  (ap pos (length-append cs (0 ∷ [])), ap some (simp (map-append, append_assoc))),
)

-- A string of at most 126 characters that is written, sent in a message with a tag below 128 and
-- read at the other end arrives with all its characters; the length that is returned counts the
-- terminator that was sent, and the reader adds another one.
pub string_roundtrip :
    (tag : ℕ) (cs : List ℕ) (rest : Block)
    → tag < 128
    → length cs < 127
    → IsBytes cs
    → Returns (Receives cs) (do
      w ← lso_writer_initialize (pos 1)
      w ← lso_writer_write_string w (init cs ++ rest) (pos (length cs))
      m ← message_create_from_writer (pos tag) w
      m ← do
        bf ← message_to_buffer m
        byte_buffer_create_from_bytes bf.count bf.buffer >>= message_create_from_byte_buffer
      lso_reader_read_string (message_to_reader m))
string_roundtrip tag cs rest small short bytes =
    Returns-bind _ (lso_writer_initialize-Wrote 1) λ w0 h0.
      Returns-bind _ (lso_writer_write_string-Wrote w0 [] cs rest h0 bytes) λ w1 h1.
        Returns-bind _ (message_create_from_writer-Carries (pos tag) w1 (string_bytes cs) h1)
          λ m carries.
            Returns-bind _
              (message_roundtrip m tag (string_bytes cs) carries small
                (string_bytes-IsBytes cs bytes))
              λ m' arrived. read-Receives (message_to_reader m') cs arrived.remains short bytes
