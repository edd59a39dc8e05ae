-- ===== src/Handlers/Accounts.antt =====
-- Sign-up and sign-in, by what the database answers (server/client.c, server/database.c).
use lso_server.Base.{
  ℕ, ◌+◌, zero, suc, ◌<◌, ◌≤◌, ◌≡◌, refl, List, [], ◌∷◌, ◌++◌, some, ℤ, ok, fault, true, false, ◌⊎◌,
  inl, inr, arith, length, length-append, lt→ltb, le→ltb,
}
use lso_server.Memory.{Block, c_text}
use lso_server.Memory.Laws.{init, NonZero}
use lso_server.World.{
  codes, Pointer, string, Client, Row, rows, failed, Query, World, object, put_object,
}
use lso_server.World.Laws.{get_client-live, set_client-live}
use lso_server.Database.{
  database_new_user, database_user_login, database_connect, mysql_query, text, sprintf,
  insert_query, select_query, succeeded, atoi,
}

pub c_text-init :
    (cs : List ℕ) (rest : Block) → NonZero cs → c_text (init cs ++ some 0 ∷ rest) ≡ ok cs
unfolding c_text
c_text-init [] rest h = refl
c_text-init (zero ∷ cs) rest h = absurd (omega arith)
c_text-init (suc c ∷ cs) rest h = rw (c_text-init cs rest h.1)

-- The state after a query.
abbrev pub asked : World → Query → World
asked w q = record w { queries = w.queries ++ q ∷ [] }

-- Both texts and what stands around them, with the terminator, have to fit into 256 bytes.
module _ (w : World) (user pass : List ℕ) (after after' : Block) (named : NonZero user)
    (spelt : NonZero pass) where
  pub database_new_user-long :
      204 ≤ length user + length pass
      → database_new_user
          (string (init user ++ some 0 ∷ after))
          (string (init pass ++ some 0 ∷ after'))
          w
        ≡ fault
  unfolding database_new_user text sprintf
  database_new_user-long long = rw (
    c_text-init user after named,
    c_text-init pass after' spelt,
    le→ltb (length (insert_query user pass)) 256 (
        omega (
          arith,
          length-append user (codes "', '" ++ (pass ++ codes "')")),
          length-append pass (codes "')"),
        )),
  )

  pub database_user_login-long :
      (client : Pointer)
      → 184 ≤ length user + length pass
      → database_user_login client
          (string (init user ++ some 0 ∷ after))
          (string (init pass ++ some 0 ∷ after'))
          w
        ≡ fault
  unfolding database_user_login text sprintf
  database_user_login-long client long = rw (
    c_text-init user after named,
    c_text-init pass after' spelt,
    le→ltb (length (select_query user pass)) 256 (
        omega (
          arith,
          length-append user (codes "' AND password='" ++ (pass ++ codes "' LIMIT 1")),
          length-append pass (codes "' LIMIT 1"),
        )),
  )

module _ (w : World) (user pass : List ℕ) (after after' : Block) (named : NonZero user)
    (spelt : NonZero pass) (connects : w.outside.connects w.queries ≡ true) where
  -- If the query has at most 255 characters and the database can be reached, a new account is one
  -- query with both texts as they are, and the result is whether it succeeded.
  pub database_new_user-asked :
      length (insert_query user pass) < 256
      → database_new_user
          (string (init user ++ some 0 ∷ after))
          (string (init pass ++ some 0 ∷ after'))
          w
        ≡ ok (
          succeeded (w.outside.answers w.queries (insert_query user pass)),
          asked w (insert_query user pass),
        )
  unfolding database_new_user text sprintf database_connect mysql_query
  database_new_user-asked fits =
      rw (c_text-init user after named, c_text-init pass after' spelt, lt→ltb _ 256 fits, connects)

  -- If the query fits into its buffer, the database can be reached and answers with a row whose id
  -- is a number, the client is signed in as that user: it gets the id and the name of the row, and
  -- nothing else changes but the log of queries.
  pub database_user_login-row :
      (p : Pointer) (c : Client) (r : Row) (rs : List Row) (digits : List ℕ) (id : ℤ)
      → length (select_query user pass) < 256
      → object w.clients p ≡ some c
      → w.outside.answers w.queries (select_query user pass) ≡ rows (r ∷ rs)
      → c_text r.id_text ≡ ok digits
      → atoi digits ≡ ok id
      → database_user_login p
          (string (init user ++ some 0 ∷ after))
          (string (init pass ++ some 0 ∷ after'))
          w
        ≡ ok (
          true,
          record (asked w (select_query user pass)) {
            clients =
                put_object w.clients p
                  (some (record c { user = record { id = id; name = string r.username } }));
          },
        )
  unfolding database_user_login text sprintf database_connect mysql_query
  database_user_login-row p c r rs digits id fits live answer spelling number = rw (
    c_text-init user after named,
    c_text-init pass after' spelt,
    lt→ltb _ 256 fits,
    connects,
    answer,
    spelling,
    number,
    get_client-live p (asked w (select_query user pass)) c live,
    set_client-live p (asked w (select_query user pass)) c
        (record c { user = record { id = id; name = string r.username } }) live,
  )

  -- With no row, or a query that fails, nobody is signed in.
  pub database_user_login-none :
      (p : Pointer)
      → length (select_query user pass) < 256
      → (w.outside.answers w.queries (select_query user pass) ≡ failed)
        ⊎ (w.outside.answers w.queries (select_query user pass) ≡ rows [])
      → database_user_login p
          (string (init user ++ some 0 ∷ after))
          (string (init pass ++ some 0 ∷ after'))
          w
        ≡ ok (false, asked w (select_query user pass))
  unfolding database_user_login text sprintf database_connect mysql_query
  database_user_login-none p fits (inl answer) = rw (
    c_text-init user after named,
    c_text-init pass after' spelt,
    lt→ltb _ 256 fits,
    connects,
    answer,
  )
  database_user_login-none p fits (inr answer) = rw (
    c_text-init user after named,
    c_text-init pass after' spelt,
    lt→ltb _ 256 fits,
    connects,
    answer,
  )
