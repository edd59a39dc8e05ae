-- ===== src/Invariant/Keeps.antt =====
-- The invariant over sends, queries and assignments to a client.
use lso_server.Base.{
  ◌≡◌, ◌∙◌, refl, some, Bool, true, false, List, [], ◌∷◌, ◌++◌, Result, ok, fault, exited,
  if◌then◌else◌,
}
use lso_server.Memory.{c_text}
use lso_server.Message.{Message}
use lso_server.World.{
  Pointer, deref, string, CString, Client, Packet, Query, Reply, failed, unstored, rows, World, Cmd,
  with_world, ◌>>=◌, ◌>>◌, pure, lift, get_client, set_client, is_null, object, put_object,
}
use lso_server.World.Laws.{
  Ends, Quiet, Ends-bind, Ends-Quiet, Ends-get_client, set_client-live, Quiet-lift,
  get_client-Quiet, get_room-Quiet, Ends-set_client,
}
use lso_server.Client.{transmit, client_send}
use lso_server.Room.{send_all, room_send_message}
use lso_server.Database.{
  atoi, database_connect, mysql_query, database_new_user, log_in, database_user_login, text,
  sprintf, insert_query, select_query,
}
use lso_server.Invariant.{Inv}
use lso_server.Invariant.Rules.{Inv-put_client}

-- The invariant holds, and the pool, the counter of clients and what lies outside are as in `old`.
pub record Kept (old w : World) : Type 0 where
  pub inv : Inv w
  pub pool : w.pool ≡ old.pool
  pub counter : w.counter_client ≡ old.counter_client
  pub outside : w.outside ≡ old.outside

-- A state with another invariant proof, and the same pool, counter and outside.
pub Kept-next :
    (old w w' : World)
    → Kept old w
    → w'.pool ≡ w.pool
    → w'.counter_client ≡ w.counter_client
    → w'.outside ≡ w.outside
    → Inv w'
    → Kept old w'
Kept-next old w w' k p c o v = record {
  inv = v;
  pool = p ∙ k.pool;
  counter = c ∙ k.counter;
  outside = o ∙ k.outside;
}

pub Kept-self : (w : World) → Inv w → Kept w w
Kept-self w v = record { inv = v; pool = refl; counter = refl; outside = refl }

-- An assignment to a client that keeps its uid.
pub Kept-put_client :
    (old w : World) (p : Pointer) (c c' : Client)
    → object w.clients p ≡ some c
    → c'.uid ≡ c.uid
    → Kept old w
    → Kept old (record w { clients = put_object w.clients p (some c') })
Kept-put_client old w p c c' e u v =
    Kept-next old w _ v refl refl refl (Inv-put_client w p c c' e u v.inv)

-- Every run of the command that returns keeps the invariant, the pool, the counter of clients and
-- what lies outside.
pub record Stable {A : Type 0} (m : Cmd A) : Type 0 where
  pub runs : (old w : World) → Kept old w → Ends (λ _. Kept old) (m w)

module _ {A : Type 0} where
  pub Stable-Quiet : {m : Cmd A} → Quiet m → Stable m
  Stable-Quiet {m} quiet = record {
    runs = λ old w v. settle old w v (quiet.reads w).0 (quiet.reads w).1;
  }
    where
      settle :
          (old w : World)
          → Kept old w
          → (r : Result A) → m w ≡ with_world w r
          → Ends (λ _. Kept old) (m w)
      settle old w v (ok a) e = rw e v
      settle old w v fault e = rw e tt
      settle old w v exited e = rw e tt

  pub Stable-pure : {a : A} → Stable (pure a)
  Stable-pure = record { runs = λ old w v. v }

  pub Stable-if : (b : Bool) {m n : Cmd A} → Stable m → Stable n → Stable (if b then m else n)
  Stable-if true p q = p
  Stable-if false p q = q

module _ {A B : Type 0} where
  pub Stable-bind :
      {m : Cmd A} {k : A → Cmd B} → Stable m → ((a : A) → Stable (k a)) → Stable (m >>= k)
  Stable-bind {m} {k} first next = record {
    runs = λ old w v.
        Ends-bind (λ _. Kept old) (m w) k (λ _. Kept old) (first.runs old w v)
          λ a w' v'. (next a).runs old w' v';
  }

  -- A command that only reads comes first.
  pub Stable-read :
      {m : Cmd A} {k : A → Cmd B} → Quiet m → ((a : A) → Stable (k a)) → Stable (m >>= k)
  Stable-read {m} {k} quiet next = record {
    runs = λ old w v. Ends-Quiet (λ _. Kept old) m k w quiet λ a e. (next a).runs old w v;
  }

  pub Stable-lift :
      (r : Result A) {k : A → Cmd B} → ((a : A) → Stable (k a)) → Stable (lift r >>= k)
  Stable-lift r {k} next = Stable-read (Quiet-lift r) next

transmit-Stable : (packet : Packet) → Stable (transmit packet)
unfolding transmit
transmit-Stable packet = record { runs = λ old w v. go old w v (w.outside.sends w.sent packet) }
  where
    go :
        (old w : World)
        → Kept old w
        → (b : Bool)
        → Ends
            (λ _. Kept old)
            (if b then ok (true, record w { sent = w.sent ++ packet ∷ [] }) else ok (false, w))
    go old w v true =
        Kept-next old w _ v refl refl refl
          (record { pool = v.inv.pool; uids = v.inv.uids; table = v.inv.table })
    go old w v false = v

pub client_send-Stable : (p : Pointer) (m : Message) → Stable (client_send p m)
unfolding client_send
client_send-Stable p m =
    Stable-lift _
      λ buffer. Stable-read (get_client-Quiet p) λ c. Stable-lift _ λ bytes. transmit-Stable _

send_all-Stable : (ps : List Pointer) (m : Message) → Stable (send_all ps m)
unfolding send_all
send_all-Stable [] m = Stable-pure
send_all-Stable (p ∷ ps) m =
    Stable-if (is_null p) (send_all-Stable ps m)
      (Stable-bind (client_send-Stable p m) λ _. send_all-Stable ps m)

pub room_send_message-Stable : (room : Pointer) (m : Message) → Stable (room_send_message room m)
unfolding room_send_message
room_send_message-Stable room m = Stable-read (get_room-Quiet room) λ r. send_all-Stable r.clients m

-- `p->room = room`, and any other assignment that keeps the uid.
pub update_client-Stable :
    (p : Pointer) (f : Client → Client)
    → ((c : Client) → (f c).uid ≡ c.uid)
    → Stable (get_client p >>= λ c. set_client p (f c))
update_client-Stable p f same = record {
  runs = λ old w v.
      Ends-get_client (λ _. Kept old) p (λ c. set_client p (f c)) w
        λ c e. rw (set_client-live p w c (f c) e) (Kept-put_client old w p c (f c) e (same c) v);
}

pub update_client_then-Stable :
    {B : Type 0} (p : Pointer) (f : Client → Client) (k : Client → Cmd B)
    → ((c : Client) → (f c).uid ≡ c.uid)
    → ((c : Client) → Stable (k c))
    → Stable (get_client p >>= λ c. set_client p (f c) >> k c)
update_client_then-Stable p f k same next = record {
  runs = λ old w v.
      Ends-get_client (λ _. Kept old) p (λ c. set_client p (f c) >> k c) w
        λ c e.
          Ends-set_client (λ _. Kept old) p (f c) (λ _. k c) w
            ((next c).runs old _ (Kept-put_client old w p c (f c) e (same c) v));
}

mysql_query-Stable : (q : Query) → Stable (mysql_query q)
unfolding mysql_query
mysql_query-Stable q = record {
  runs = λ old w v.
      Kept-next old w _ v refl refl refl
        (record { pool = v.inv.pool; uids = v.inv.uids; table = v.inv.table });
}

database_connect-Stable : Stable database_connect
unfolding database_connect
database_connect-Stable = record { runs = λ old w v. go old w v (w.outside.connects w.queries) }
  where
    go :
        (old w : World)
        → Kept old w
        → (b : Bool) → Ends (λ (_ : Unit {0}). Kept old) (if b then ok (tt, w) else exited)
    go old w v true = v
    go old w v false = tt

pub text-Stable : (p : CString) → Stable (text p)
unfolding text
text-Stable p = Stable-lift (deref p) λ m. Stable-Quiet (Quiet-lift (c_text m))

pub database_new_user-Stable : (user pass : CString) → Stable (database_new_user user pass)
unfolding database_new_user
database_new_user-Stable user pass = Stable-bind (text-Stable user) λ u.
    Stable-bind (text-Stable pass) λ p. Stable-lift (sprintf (insert_query u p)) λ q.
      Stable-bind database_connect-Stable
        λ _. Stable-bind (mysql_query-Stable q) λ reply. Stable-pure

log_in-Stable : (client : Pointer) (reply : Reply) → Stable (log_in client reply)
log_in-Stable client failed = Stable-pure
log_in-Stable client unstored = Stable-Quiet (Quiet-lift fault)
log_in-Stable client (rows []) = Stable-pure
log_in-Stable client (rows (r ∷ rs)) = Stable-lift (c_text r.id_text) λ digits.
    Stable-lift (atoi digits) λ id.
      update_client_then-Stable client
        (λ c. record c { user = record { id = id; name = string r.username } }) (λ _. pure true)
        (λ c. refl) λ c. Stable-pure

pub database_user_login-Stable :
    (client : Pointer) (user pass : CString) → Stable (database_user_login client user pass)
unfolding database_user_login
database_user_login-Stable client user pass = Stable-bind (text-Stable user) λ u.
    Stable-bind (text-Stable pass) λ p. Stable-lift (sprintf (select_query u p)) λ q.
      Stable-bind database_connect-Stable
        λ _. Stable-bind (mysql_query-Stable q) λ reply. log_in-Stable client reply
