-- ===== src/Handlers/Quotes.antt =====
-- What a quote in a name or a password does to the queries (server/database.c).
use lso_server.Base.{◌≡◌, refl, List, [], ◌∷◌, ◌++◌, some, append_assoc, ℕ, ok}
use lso_server.Memory.{Block, c_text}
use lso_server.Memory.Laws.{init, NonZero, are_positive-NonZero}
use lso_server.World.{Pointer, string, World, codes}
use lso_server.Database.{database_new_user, database_user_login, text}
use lso_server.Handlers.Accounts.{c_text-init}

-- What stands between the name and the password of a sign-in.
abbrev pub and_password : List ℕ
and_password = codes "' AND password='"

abbrev pub next_value : List ℕ
next_value = codes "', '"

NonZero-append : (xs ys : List ℕ) → NonZero xs → NonZero ys → NonZero (xs ++ ys)
NonZero-append [] ys h k = k
NonZero-append (x ∷ xs) ys h k = (h.0, NonZero-append xs ys h.1 k)

-- Brackets of five texts.
regroup :
    (front user between middle pass back : List ℕ)
    → front ++ ((user ++ (between ++ middle)) ++ (between ++ (pass ++ back)))
      ≡ front ++ (user ++ (between ++ ((middle ++ (between ++ pass)) ++ back)))
regroup front user between middle pass back = simp (append_assoc)

module _ (w : World) (user middle pass : List ℕ) (after after' : Block) (named : NonZero user)
    (quoted : NonZero middle) (spelt : NonZero pass) where
  -- The texts that C reads from the name that goes on and from the longer password.
  longer_texts :
      (between : List ℕ)
      → NonZero between
      → (c_text (init (user ++ (between ++ middle)) ++ some 0 ∷ after)
          ≡ ok (user ++ (between ++ middle)))
        × (c_text (init (middle ++ (between ++ pass)) ++ some 0 ∷ after')
            ≡ ok (middle ++ (between ++ pass)))
  longer_texts between h = (
    c_text-init (user ++ (between ++ middle)) after
        (NonZero-append user (between ++ middle) named (NonZero-append between middle h quoted)),
    c_text-init (middle ++ (between ++ pass)) after'
        (NonZero-append middle (between ++ pass) quoted (NonZero-append between pass h spelt)),
  )

  -- Quotes are not escaped: for texts a, b and c without a zero and the text s that stands between
  -- the name and the password of the query, a sign-in with the name a s b and the password c is a
  -- sign-in with the name a and the password b s c; so it is for new accounts and their query.
  pub database_user_login-confuses :
      ((client : Pointer)
        → database_user_login client
            (string (init (user ++ (and_password ++ middle)) ++ some 0 ∷ after))
            (string (init pass ++ some 0 ∷ after'))
            w
          ≡ database_user_login client
              (string (init user ++ some 0 ∷ after))
              (string (init (middle ++ (and_password ++ pass)) ++ some 0 ∷ after'))
              w)
      × (database_new_user
            (string (init (user ++ (next_value ++ middle)) ++ some 0 ∷ after))
            (string (init pass ++ some 0 ∷ after'))
            w
          ≡ database_new_user
              (string (init user ++ some 0 ∷ after))
              (string (init (middle ++ (next_value ++ pass)) ++ some 0 ∷ after'))
              w)
  unfolding database_user_login database_new_user text
  database_user_login-confuses =
      let (name, password) = longer_texts and_password (are_positive-NonZero and_password refl) in
      let (name', password') = longer_texts next_value (are_positive-NonZero next_value refl) in
      let user_text = c_text-init user after named in
      let pass_text = c_text-init pass after' spelt in
      (
        λ client. rw (
          name,
          pass_text,
          user_text,
          password,
          regroup [] user and_password middle pass (codes "' LIMIT 1"),
        ),
        rw (
          name',
          pass_text,
          user_text,
          password',
          regroup [] user next_value middle pass (codes "')"),
        ),
      )
