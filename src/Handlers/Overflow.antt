-- ===== src/Handlers/Overflow.antt =====
-- Names and passwords that are too long (server/client.c, server/database.c).
use lso_server.Base.{ℕ, ◌+◌, ◌≤◌, ◌≡◌, List, ◌∷◌, ◌++◌, fault, length}
use lso_server.Reader.{Reader, skip}
use lso_server.Reader.Remains.{Remains}
use lso_server.Reader.Spelled.{Spells, lso_reader_read_string-Spells}
use lso_server.World.{Pointer, World}
use lso_server.Handlers.{handle_sign_up_tag, handle_sign_in_tag}
use lso_server.Handlers.Accounts.{database_new_user-long, database_user_login-long}

-- A client sends a name and a password that have together 204 characters or more to sign up, or
-- 184 or more to sign in: the query overflows its buffer of 256 bytes, before the database is
-- asked.
pub handle_sign_up_tag-overflows :
    (w : World) (client : Pointer) (reader : Reader) (xs ys zs user pass : List ℕ)
    → Remains reader xs
    → Spells xs user ys
    → Spells ys pass zs
    → (204 ≤ length user + length pass → handle_sign_up_tag client reader w ≡ fault)
      × (184 ≤ length user + length pass → handle_sign_in_tag client reader w ≡ fault)
unfolding handle_sign_up_tag handle_sign_in_tag
handle_sign_up_tag-overflows w client reader xs ys zs user pass rem name password =
    let (first, rem') = lso_reader_read_string-Spells reader xs user ys name rem in
    let behind_name = skip reader (4 + length (user ++ 0 ∷ name.more)) in
    let (second, rem'') = lso_reader_read_string-Spells behind_name ys pass zs password rem' in
    (
      λ long.
          rw (first, second, database_new_user-long w user pass _ _ name.text password.text long),
      λ long. rw (
        first,
        second,
        database_user_login-long w user pass _ _ name.text password.text client long,
      ),
    )
