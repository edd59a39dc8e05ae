-- ===== src/Tests/Accounts.antt =====
-- Strings from end to end, and accounts, at concrete inputs.
use lso_server.Base.{◌≡◌, refl, [], ◌∷◌, ◌++◌, some, pos, Returns, ◌>>=◌, arith}
use lso_server.Memory.Laws.{init}
use lso_server.Buffer.{byte_buffer_create_from_bytes}
use lso_server.Writer.{lso_writer_initialize, lso_writer_write_string}
use lso_server.Reader.{lso_reader_read_string}
use lso_server.Message.{
  message_create_from_writer, message_create_from_byte_buffer, message_to_reader, message_to_buffer,
}
use lso_server.Message.Strings.{Receives, string_roundtrip}
use lso_server.World.{Pointer, string, codes}
use lso_server.Database.{database_new_user, database_user_login}
use lso_server.Handlers.Quotes.{and_password, next_value, database_user_login-confuses}
use lso_server.Tests.Data.{is_bytes-IsBytes, are_positive-NonZero, town}

string_roundtrip_example : Returns (Receives (codes "hi")) (do
  w ← lso_writer_initialize (pos 1)
  w ← lso_writer_write_string w (init (codes "hi") ++ some 0 ∷ []) (pos 2)
  m ← message_create_from_writer (pos 12) w
  m ← do
    bf ← message_to_buffer m
    byte_buffer_create_from_bytes bf.count bf.buffer >>= message_create_from_byte_buffer
  lso_reader_read_string (message_to_reader m))
string_roundtrip_example =
    string_roundtrip 12 (codes "hi") (some 0 ∷ []) (omega arith) (omega arith)
      (is_bytes-IsBytes (codes "hi") refl)

-- A name that goes on behind a quote, and a password that starts before one.
database_user_login-confuses_example :
    ((client : Pointer)
      → database_user_login client
          (string (init (codes "ann" ++ (and_password ++ codes "x")) ++ some 0 ∷ []))
          (string (init (codes "pw") ++ some 0 ∷ []))
          town
        ≡ database_user_login client
            (string (init (codes "ann") ++ some 0 ∷ []))
            (string (init (codes "x" ++ (and_password ++ codes "pw")) ++ some 0 ∷ []))
            town)
    × (database_new_user
          (string (init (codes "ann" ++ (next_value ++ codes "x")) ++ some 0 ∷ []))
          (string (init (codes "pw") ++ some 0 ∷ []))
          town
        ≡ database_new_user
            (string (init (codes "ann") ++ some 0 ∷ []))
            (string (init (codes "x" ++ (next_value ++ codes "pw")) ++ some 0 ∷ []))
            town)
database_user_login-confuses_example =
    database_user_login-confuses town (codes "ann") (codes "x") (codes "pw") [] []
      (are_positive-NonZero (codes "ann") refl) (are_positive-NonZero (codes "x") refl)
      (are_positive-NonZero (codes "pw") refl)
