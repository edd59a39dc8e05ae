-- ===== src/ClientPool.antt =====
-- server/client_pool.h and server/client_pool.c: the table of connected clients. Threads are
-- interleaved between whole operations, so the mutex is left out.
pub mod Lookup
use lso_server.Base.{
  ℕ, zero, suc, ◌+◌, ◌-◌, ◌%◌, ◌^◌, Bool, true, false, not, ◌||◌, List, [], ◌∷◌, Option, none, some,
  ℤ, pos, negsuc, ◌+ℤ◌, ◌-ℤ◌, eqb_ℤ, ◌==◌, Result, if◌then◌else◌, set,
}
use lso_server.World.{
  Pointer, null, Client, Pool, World, Cmd, pure, undefined, ◌>>=◌, ◌>>◌, gets, modify, get_client,
  is_null, is_no_string,
}

abbrev pub max_clients : ℕ
max_clients = 10

-- The first empty slot from index `i` on; `none` is the index -1.
unfoldable pub empty_index : List Pointer → ℕ → Option ℕ
empty_index [] i = none
empty_index (p ∷ ps) i = if is_null p then some i else empty_index ps (i + 1)

unfoldable pub get_client_pool_empty_index : Cmd (Option ℕ)
get_client_pool_empty_index = gets (λ w. empty_index w.pool.clients 0)

-- The first slot from index `i` on whose client has the `uid` of `client`.
unfoldable pub find_uid : Pointer → List Pointer → ℕ → Cmd (Option ℕ)
find_uid client [] i = pure none
find_uid client (p ∷ ps) i =
    let rest = find_uid client ps (i + 1) in
    if is_null p then rest else (do
      temp ← get_client p
      c ← get_client client
      if temp.uid == c.uid then pure (some i) else rest)

unfoldable pub find_index_in_client_pool : Pointer → Cmd (Option ℕ)
find_index_in_client_pool client =
    if is_null client
    then pure none
    else (do slots ← gets (λ w. w.pool.clients); find_uid client slots 0)

-- An `int` that is compared with a `uint32_t`.
abbrev pub unsigned : ℤ → ℕ
unsigned (pos n) = n % 2 ^ 32
unsigned (negsuc n) = 2 ^ 32 - 1 - n % 2 ^ 32

-- The loop of `client_pool_get`, with `rounds` to go. It may leave the array.
unfoldable pub scan_pool : ℤ → List Pointer → (rounds : ℕ) → Cmd Pointer
scan_pool id [] rounds = if rounds == 0 then pure null else undefined
scan_pool id (p ∷ ps) rounds =
    let rest = scan_pool id ps (rounds - 1) in
    if rounds == 0
    then pure null
    else (if is_null p then rest else (do
      temp ← get_client p
      if is_no_string temp.user.name || not (eqb_ℤ temp.user.id id) then rest else pure p))

unfoldable pub client_pool_get : ℤ → Cmd Pointer
client_pool_get id = do pool ← gets (λ w. w.pool); scan_pool id pool.clients (unsigned pool.size)

abbrev occupy : Pointer → Option ℕ → Cmd Bool
occupy client none = pure false
occupy client (some i) = do
  modify (λ w. record w {
    pool = record { clients = set w.pool.clients i client; size = w.pool.size +ℤ pos 1 };
  })
  pure true

unfoldable pub client_pool_add : Pointer → Cmd Bool
client_pool_add client =
    if is_null client
    then pure false
    else (do index ← get_client_pool_empty_index; occupy client index)

abbrev pub vacate : Option ℕ → Cmd Bool
vacate none = pure false
vacate (some i) = do
  modify (λ w. record w {
    pool = record { clients = set w.pool.clients i null; size = w.pool.size -ℤ pos 1 };
  })
  pure true

unfoldable pub client_pool_remove : Pointer → Cmd Bool
client_pool_remove client =
    if is_null client
    then pure false
    else (do index ← find_index_in_client_pool client; vacate index)

unfoldable pub client_pool_is_full : Cmd Bool
client_pool_is_full = gets (λ w. eqb_ℤ w.pool.size (pos max_clients))
