-- ===== src/Database.antt =====
-- server/database.h and server/database.c: accounts in a MySQL table. The MySQL client library is
-- outside: `Outside.connects` says whether `mysql_real_connect` succeeds, `Outside.answers` what
-- a query returns.
use lso_server.Base.{
  ℕ, zero, suc, ◌+◌, ◌-◌, ◌*◌, ◌^◌, Bool, true, false, ◌&&◌, ◌||◌, List, [], ◌∷◌, ◌++◌, ℤ, pos,
  negsuc, Result, ok, fault, exited, ltb, leb, ◌==◌, if◌then◌else◌, length,
}
use lso_server.Memory.{c_text}
use lso_server.World.{
  Pointer, CString, string, Query, Reply, failed, unstored, rows, Cmd, pure, ◌>>=◌, ◌>>◌, lift,
  get_client, set_client, deref, codes,
}

-- A query has to fit into `char query[256]` with its terminator.
unfoldable pub sprintf : Query → Result Query
sprintf q = if ltb (length q) 256 then ok q else fault

abbrev pub insert_query : List ℕ → List ℕ → Query
insert_query username password =
    codes "INSERT INTO users(username, password) VALUES('"
    ++ (username ++ (codes "', '" ++ (password ++ codes "')")))

abbrev pub select_query : List ℕ → List ℕ → Query
select_query username password =
    codes "SELECT id, username FROM users where username='"
    ++ (username ++ (codes "' AND password='" ++ (password ++ codes "' LIMIT 1")))

-- A new connection for each query; the server exits if it fails.
unfoldable pub database_connect : Cmd (Unit {0})
database_connect w = if w.outside.connects w.queries then ok (tt, w) else exited

unfoldable pub mysql_query : Query → Cmd Reply
mysql_query q w = ok (w.outside.answers w.queries q, record w { queries = w.queries ++ q ∷ [] })

-- The characters of a `char` pointer.
unfoldable pub text : CString → Cmd (List ℕ)
text p = do m ← lift (deref p); lift (c_text m)

abbrev pub succeeded : Reply → Bool
succeeded failed = false
succeeded unstored = true
succeeded (rows rs) = true

unfoldable pub database_new_user : CString → CString → Cmd Bool
unfolding text
database_new_user username password = do
  user ← text username
  pass ← text password
  query ← lift (sprintf (insert_query user pass))
  database_connect
  reply ← mysql_query query
  pure (succeeded reply)

-- The digits of a number, most significant first.
unfoldable pub digits_value : ℕ → List ℕ → ℕ
digits_value acc [] = acc
digits_value acc (c ∷ cs) =
    let rest = digits_value (acc * 10 + (c - b'0')) cs in
    if leb b'0' c && leb c b'9' then rest else acc

abbrev is_space : ℕ → Bool
is_space c = c == b' ' || (leb 9 c && leb c 13)

-- A sign, if any, and the digits behind it.
abbrev signed_value : List ℕ → ℕ × Bool
signed_value [] = (0, false)
signed_value (c ∷ cs) =
    if c == b'-'
    then (digits_value 0 cs, true)
    else (if c == b'+' then (digits_value 0 cs, false) else (digits_value 0 (c ∷ cs), false))

unfoldable pub skip_spaces : List ℕ → List ℕ
skip_spaces [] = []
skip_spaces (c ∷ cs) = let rest = skip_spaces cs in if is_space c then rest else c ∷ cs

-- Of a value that no `int` has, the behaviour is undefined.
abbrev in_int : ℕ × Bool → Result ℤ
in_int (n, false) = if ltb n (2 ^ 31) then ok (pos n) else fault
in_int (zero, true) = ok (pos 0)
in_int (suc n, true) = if ltb n (2 ^ 31) then ok (negsuc n) else fault

unfoldable pub atoi : List ℕ → Result ℤ
atoi cs = in_int (signed_value (skip_spaces cs))

-- `mysql_num_rows` and `mysql_fetch_row` read through the result.
abbrev pub log_in : Pointer → Reply → Cmd Bool
log_in client failed = pure false
log_in client unstored = lift fault
log_in client (rows []) = pure false
log_in client (rows (r ∷ rs)) = do
  digits ← lift (c_text r.id_text)
  id ← lift (atoi digits)
  c ← get_client client
  set_client client (record c { user = record { id = id; name = string r.username } })
  pure true

unfoldable pub database_user_login : Pointer → CString → CString → Cmd Bool
unfolding text
database_user_login client username password = do
  user ← text username
  pass ← text password
  query ← lift (sprintf (select_query user pass))
  database_connect
  reply ← mysql_query query
  log_in client reply
