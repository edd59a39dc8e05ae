-- ===== src/World/Laws.antt =====
-- Rules for commands: postconditions of the runs that return, and commands that only read.
use lso_server.Base.{
  ◌≡◌, refl, inl, inr, none, some, Bool, true, false, if◌then◌else◌, Option-cases, Result, ok,
  fault, exited,
}
use lso_server.World.{
  World, Cmd, Pointer, Client, Room, and_then, with_world, ◌>>=◌, pure, lift, gets, undefined,
  object, put_object, get_client, set_client, free_client, get_room, set_room, free_room,
}

-- `*p` at a pointer to a client, and at any other.
module _ (p : Pointer) (w : World) where
  pub get_client-live : (c : Client) → object w.clients p ≡ some c → get_client p w ≡ ok (c, w)
  unfolding get_client
  get_client-live c e = rw (e, get_client)

  pub get_client-dead : object w.clients p ≡ none → get_client p w ≡ fault
  unfolding get_client
  get_client-dead e = rw (e, get_client)

  pub set_client-live :
      (c c' : Client)
      → object w.clients p ≡ some c
      → set_client p c' w ≡ ok (tt, record w { clients = put_object w.clients p (some c') })
  unfolding set_client
  set_client-live c c' e = rw (get_client-live c e)

  pub set_client-dead : (c' : Client) → object w.clients p ≡ none → set_client p c' w ≡ fault
  unfolding set_client
  set_client-dead c' e = rw (get_client-dead e)

  pub free_client-live :
      (c : Client)
      → object w.clients p ≡ some c
      → free_client p w ≡ ok (tt, record w { clients = put_object w.clients p none })
  unfolding free_client
  free_client-live c e = rw (get_client-live c e)

  pub free_client-dead : object w.clients p ≡ none → free_client p w ≡ fault
  unfolding free_client
  free_client-dead e = rw (get_client-dead e)

-- `*p` at a pointer to a room, and at any other.
module _ (p : Pointer) (w : World) where
  pub get_room-live : (r : Room) → object w.rooms p ≡ some r → get_room p w ≡ ok (r, w)
  unfolding get_room
  get_room-live r e = rw (e, get_room)

  pub get_room-dead : object w.rooms p ≡ none → get_room p w ≡ fault
  unfolding get_room
  get_room-dead e = rw (e, get_room)

  pub set_room-live :
      (r r' : Room)
      → object w.rooms p ≡ some r
      → set_room p r' w ≡ ok (tt, record w { rooms = put_object w.rooms p (some r') })
  unfolding set_room
  set_room-live r r' e = rw (get_room-live r e)

  pub set_room-dead : (r' : Room) → object w.rooms p ≡ none → set_room p r' w ≡ fault
  unfolding set_room
  set_room-dead r' e = rw (get_room-dead e)

  pub free_room-live :
      (r : Room)
      → object w.rooms p ≡ some r
      → free_room p w ≡ ok (tt, record w { rooms = put_object w.rooms p none })
  unfolding free_room
  free_room-live r e = rw (get_room-live r e)

  pub free_room-dead : object w.rooms p ≡ none → free_room p w ≡ fault
  unfolding free_room
  free_room-dead e = rw (get_room-dead e)

-- If the run returns, its value and its final state satisfy `Q`.
abbrev pub Ends : {A : Type 0} → (A → World → Type 0) → Result (A × World) → Type 0
Ends Q (ok (a, w)) = Q a w
Ends Q fault = Unit
Ends Q exited = Unit

-- Every run that returns keeps `P`.
abbrev pub Keeps : {A : Type 0} → (World → Type 0) → Cmd A → Type 0
Keeps P m = (w : World) → P w → Ends (λ _. P) (m w)

-- The command does not change the state.
pub record Quiet {A : Type 0} (m : Cmd A) : Type 0 where
  pub reads : (w : World) → (r : Result A) × (m w ≡ with_world w r)

module _ {A B : Type 0} (Q : B → World → Type 0) where
  pub Ends-bind :
      (r : Result (A × World)) (k : A → Cmd B) (P : A → World → Type 0)
      → Ends P r
      → ((a : A) (w : World) → P a w → Ends Q (k a w))
      → Ends Q (and_then r k)
  Ends-bind (ok (a, w)) k P p next = next a w p
  Ends-bind fault k P p next = tt
  Ends-bind exited k P p next = tt

  -- The state stays the same over a command that only reads.
  pub Ends-Quiet :
      (m : Cmd A) (k : A → Cmd B) (w : World)
      → Quiet m
      → ((a : A) → m w ≡ ok (a, w) → Ends Q (k a w))
      → Ends Q (and_then (m w) k)
  Ends-Quiet m k w quiet next = read (quiet.reads w).0 (quiet.reads w).1
    where
      read : (r : Result A) → m w ≡ with_world w r → Ends Q (and_then (m w) k)
      read (ok a) e = rw e (next a e)
      read fault e = rw e tt
      read exited e = rw e tt

  pub Ends-lift :
      (r : Result A) (k : A → Cmd B) (w : World)
      → ((a : A) → r ≡ ok a → Ends Q (k a w))
      → Ends Q (and_then (with_world w r) k)
  Ends-lift (ok a) k w next = next a refl
  Ends-lift fault k w next = tt
  Ends-lift exited k w next = tt

module _ {B : Type 0} (Q : B → World → Type 0) where
  pub Ends-get_client :
      (p : Pointer) (k : Client → Cmd B) (w : World)
      → ((c : Client) → object w.clients p ≡ some c → Ends Q (k c w))
      → Ends Q (and_then (get_client p w) k)
  Ends-get_client p k w next = elim (Option-cases (object w.clients p)) [
    | inl e ↦ rw (get_client-dead p w e) tt
    | inr (c, e) ↦ rw (get_client-live p w c e) (next c e)
  ]

  pub Ends-set_client :
      (p : Pointer) (c : Client) (k : Unit {0} → Cmd B) (w : World)
      → Ends Q (k tt (record w { clients = put_object w.clients p (some c) }))
      → Ends Q (and_then (set_client p c w) k)
  Ends-set_client p c k w next = elim (Option-cases (object w.clients p)) [
    | inl e ↦ rw (set_client-dead p w c e) tt
    | inr (old, e) ↦ rw (set_client-live p w old c e) next
  ]

  pub Ends-get_room :
      (p : Pointer) (k : Room → Cmd B) (w : World)
      → ((r : Room) → object w.rooms p ≡ some r → Ends Q (k r w))
      → Ends Q (and_then (get_room p w) k)
  Ends-get_room p k w next = elim (Option-cases (object w.rooms p)) [
    | inl e ↦ rw (get_room-dead p w e) tt
    | inr (r, e) ↦ rw (get_room-live p w r e) (next r e)
  ]

  Ends-set_room :
      (p : Pointer) (r : Room) (k : Unit {0} → Cmd B) (w : World)
      → Ends Q (k tt (record w { rooms = put_object w.rooms p (some r) }))
      → Ends Q (and_then (set_room p r w) k)
  Ends-set_room p r k w next = elim (Option-cases (object w.rooms p)) [
    | inl e ↦ rw (set_room-dead p w r e) tt
    | inr (old, e) ↦ rw (set_room-live p w old r e) next
  ]

module _ {A B : Type 0} where
  pub Quiet-bind : {m : Cmd A} {k : A → Cmd B} → Quiet m → ((a : A) → Quiet (k a)) → Quiet (m >>= k)
  Quiet-bind {m} {k} quiet next = record { reads = λ w. read w (quiet.reads w).0 (quiet.reads w).1 }
    where
      read :
          (w : World) (r : Result A)
          → m w ≡ with_world w r
          → (s : Result B) × (and_then (m w) k ≡ with_world w s)
      read w (ok a) e = (((next a).reads w).0, rw e ((next a).reads w).1)
      read w fault e = (fault, rw e)
      read w exited e = (exited, rw e)

module _ {A : Type 0} where
  pub Quiet-lift : (r : Result A) → Quiet (lift r)
  Quiet-lift r = record { reads = λ w. (r, refl) }

  pub Quiet-pure : {a : A} → Quiet (pure a)
  Quiet-pure {a} = record { reads = λ w. (ok a, refl) }

  pub Quiet-undefined : Quiet {A = A} undefined
  Quiet-undefined = record { reads = λ w. (fault, refl) }

  pub Quiet-gets : {f : World → A} → Quiet (gets f)
  Quiet-gets {f} = record { reads = λ w. (ok (f w), refl) }

  pub Quiet-if : (b : Bool) {m n : Cmd A} → Quiet m → Quiet n → Quiet (if b then m else n)
  Quiet-if true p q = p
  Quiet-if false p q = q

pub get_client-Quiet : (p : Pointer) → Quiet (get_client p)
get_client-Quiet p = record {
  reads = λ w. elim (Option-cases (object w.clients p)) [
    | inl e ↦ (fault, get_client-dead p w e)
    | inr (c, e) ↦ (ok c, get_client-live p w c e)
  ];
}

pub get_room-Quiet : (p : Pointer) → Quiet (get_room p)
get_room-Quiet p = record {
  reads = λ w. elim (Option-cases (object w.rooms p)) [
    | inl e ↦ (fault, get_room-dead p w e)
    | inr (r, e) ↦ (ok r, get_room-live p w r e)
  ];
}

pub ruleset quiet = (
  Quiet-bind, Quiet-lift, Quiet-pure, Quiet-undefined, Quiet-gets, Quiet-if, get_client-Quiet,
  get_room-Quiet,
)
