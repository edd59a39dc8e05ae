-- ===== src/Handlers/SignIn.antt =====
-- What a client that signs up or in is told (server/client.c), by what the database answers.
use lso_server.Base.{
  ℕ, ◌+◌, ◌<◌, ◌≡◌, refl, ap, ◌⊎◌, inl, inr, List, [], ◌∷◌, ◌++◌, some, ℤ, ok, true, length,
  if◌then◌else◌, Bool-cases,
}
use lso_server.Memory.{Block, c_text}
use lso_server.Memory.Laws.{init, NonZero}
use lso_server.Utils.RoundTrip.{int32_bytes}
use lso_server.Tags.{
  sign_up_accepted_tag, sign_up_rejected_tag, sign_in_accepted_tag, sign_in_rejected_tag,
}
use lso_server.Reader.{Reader, skip}
use lso_server.Reader.Remains.{Remains}
use lso_server.Reader.Spelled.{Spells, lso_reader_read_string-Spells}
use lso_server.Writer.Holds.{lso_writer_initialize-Wrote}
use lso_server.Writer.Strings.{IsBytes, string_bytes}
use lso_server.Message.Wire.{wire, message_create_empty-Carries, message_create_from_writer-Carries}
use lso_server.World.{
  Pointer, addr, string, Client, Query, Row, rows, failed, World, object, put_object, ◌>>◌, pure,
}
use lso_server.World.Heap.{object-put_self}
use lso_server.Client.{transmit}
use lso_server.Client.Sends.{client_serialize-Wrote}
use lso_server.Database.{insert_query, select_query, succeeded, atoi}
use lso_server.Handlers.{handle_sign_up_tag, handle_sign_in_tag, send_empty}
use lso_server.Handlers.Accounts.{
  asked, database_new_user-asked, database_user_login-row, database_user_login-none,
}
use lso_server.Handlers.Replies.{reply_lem}

-- A message with no payload.
send_empty-wire :
    (w : World) (p : Pointer) (c : Client) (tag : ℤ)
    → object w.clients p ≡ some c
    → send_empty p tag w
      ≡ (transmit (record { sockfd = c.sockfd; bytes = wire tag [] }) >> pure tt) w
unfolding send_empty
send_empty-wire w p c tag live =
    let (m, e, carries) = message_create_empty-Carries tag in
    reply_lem w p c tag [] _ live ((m, w), rw e, (refl, carries))

-- The state after the client `c` at `addr a` was signed in, by the row `r` with the number `id`
-- that answers the query `q`.
abbrev pub signed_in : World → ℕ → Client → Query → Row → ℤ → World
signed_in w a c q r id = record (asked w q) {
  clients =
      put_object w.clients (addr a)
        (some (record c { user = record { id = id; name = string r.username } }));
}

module _ (w : World) (a : ℕ) (c : Client) (reader : Reader) (xs ys zs user pass : List ℕ)
    (rem : Remains reader xs) (name : Spells xs user ys) (password : Spells ys pass zs)
    (live : object w.clients (addr a) ≡ some c)
    (connects : w.outside.connects w.queries ≡ true) where
  abbrev behind_name : Reader
  behind_name = skip reader (4 + length (user ++ 0 ∷ name.more))

  -- A client that sends a name and a password to sign up is told whether the query for the new
  -- account succeeded, if the query fits into its buffer and the database can be reached; nothing
  -- else changes but the log of queries.
  pub handle_sign_up_tag-answers :
      length (insert_query user pass) < 256
      → handle_sign_up_tag (addr a) reader w
        ≡ (transmit (record {
          sockfd = c.sockfd;
          bytes =
              wire
                (if succeeded (w.outside.answers w.queries (insert_query user pass))
                  then sign_up_accepted_tag
                  else sign_up_rejected_tag)
                [];
        })
              >> pure tt)
            (asked w (insert_query user pass))
  unfolding handle_sign_up_tag
  handle_sign_up_tag-answers fits =
      let (first, rem') = lso_reader_read_string-Spells reader xs user ys name rem in
      let (second, rem'') = lso_reader_read_string-Spells behind_name ys pass zs password rem' in
      let w' = asked w (insert_query user pass) in
      rw
        (
          first,
          second,
          database_new_user-asked w user pass _ _ name.text password.text connects fits,
        )
        (elim (Bool-cases (succeeded (w.outside.answers w.queries (insert_query user pass)))) [
          | inl h ↦ rw h (send_empty-wire w' (addr a) c sign_up_accepted_tag live)
          | inr h ↦ rw h (send_empty-wire w' (addr a) c sign_up_rejected_tag live)
        ])

  -- A client that sends a name and a password, for which the database answers with a row whose id
  -- is a number, is signed in as the user of that row and told its id and name, if the query fits
  -- into its buffer and the database can be reached.
  pub handle_sign_in_tag-accepts :
      (r : Row) (rs : List Row) (digits : List ℕ) (id : ℤ) (cs : List ℕ) (rest : Block)
      → length (select_query user pass) < 256
      → w.outside.answers w.queries (select_query user pass) ≡ rows (r ∷ rs)
      → c_text r.id_text ≡ ok digits
      → atoi digits ≡ ok id
      → r.username ≡ init cs ++ some 0 ∷ rest
      → NonZero cs
      → IsBytes cs
      → handle_sign_in_tag (addr a) reader w
        ≡ (transmit (record {
          sockfd = c.sockfd;
          bytes = wire sign_in_accepted_tag (int32_bytes id ++ string_bytes cs);
        })
              >> pure tt)
            (signed_in w a c (select_query user pass) r id)
  unfolding handle_sign_in_tag
  handle_sign_in_tag-accepts r rs digits id cs rest fits answer spelling number named text bytes =
      let (first, rem') = lso_reader_read_string-Spells reader xs user ys name rem in
      let (second, rem'') = lso_reader_read_string-Spells behind_name ys pass zs password rem' in
      let w' = signed_in w a c (select_query user pass) r id in
      let c' : Client = record c { user = record { id = id; name = string r.username } } in
      let there = object-put_self w.clients a c (some c') live in
      let (w0, e0, h0) = lso_writer_initialize-Wrote 4 in
      let ((w1, _), e1, (same, h1)) =
        client_serialize-Wrote w' (addr a) c' cs rest w0 [] there (ap string named) text bytes h0 in
      let (m, e2, h2) = message_create_from_writer-Carries sign_in_accepted_tag w1 _ h1 in
      rw
        (
          first,
          second,
          database_user_login-row w user pass _ _ name.text password.text connects (addr a) c r rs
              digits id fits live answer spelling number,
          e0,
          e1,
          same,
        )
        (reply_lem w' (addr a) c' sign_in_accepted_tag _ _ there ((m, w'), rw e2, (refl, h2)))

  -- A client that sends a name and a password, for which the query fails or finds no row, is told
  -- that it is rejected, and nothing else changes but the log of queries, if the query fits into
  -- its buffer and the database can be reached.
  pub handle_sign_in_tag-rejects :
      length (select_query user pass) < 256
      → (w.outside.answers w.queries (select_query user pass) ≡ failed)
        ⊎ (w.outside.answers w.queries (select_query user pass) ≡ rows [])
      → handle_sign_in_tag (addr a) reader w
        ≡ (transmit (record { sockfd = c.sockfd; bytes = wire sign_in_rejected_tag [] }) >> pure tt)
            (asked w (select_query user pass))
  unfolding handle_sign_in_tag
  handle_sign_in_tag-rejects fits answer =
      let (first, rem') = lso_reader_read_string-Spells reader xs user ys name rem in
      let (second, rem'') = lso_reader_read_string-Spells behind_name ys pass zs password rem' in
      rw
        (
          first,
          second,
          database_user_login-none w user pass _ _ name.text password.text connects (addr a) fits
              answer,
        )
        (send_empty-wire (asked w (select_query user pass)) (addr a) c sign_in_rejected_tag live)
