-- ===== src/Soundness/Guests.antt =====
-- What a handler of server/client.c may do to the rooms, without slots: each room has an owner and
-- a bag of guests.
use lso_server.Base.{ℕ, ◌<◌, ◌≡◌, ◌≢◌, ◌⊎◌, ◌∙◌, List, [], Option, some, none, ℤ, ok}
use mathlib.Core.Quot
use lso_server.Tags.{join_room_accepted_tag, leave_room_requested_tag, room_create_requested_tag}
use lso_server.World.{Pointer, addr, Room, World, Cmd, object}
use lso_server.Room.{max_clients_per_room}
use lso_server.Roster.{Bag, put, size, occurrences}
use lso_server.Roster.Slots.{members}
use lso_server.Soundness.{Sound}

-- The rooms by their addresses.
abbrev pub Hotel : Type 0
Hotel = ℕ → Option (Pointer × Bag)

abbrev pub guests : Room → Bag
guests r = Quot.mk (members r.clients)

abbrev pub seen : Option Room → Option (Pointer × Bag)
seen none = none
seen (some r) = some (r.owner, guests r)

abbrev pub rooms_seen : List (Option Room) → Hotel
rooms_seen rooms k = seen (object rooms (addr k))

abbrev pub hotel : World → Hotel
hotel w = rooms_seen w.rooms

abbrev pub nobody : Bag
nobody = Quot.mk []

abbrev pub Stays : Hotel → Hotel → Type 0
Stays h h' = (k : ℕ) → h' k ≡ h k

-- The same but for one room.
abbrev pub Elsewhere : ℕ → Hotel → Hotel → Type 0
Elsewhere b h h' = (k : ℕ) → b ≢ k → h' k ≡ h k

-- There is a new room, with the client at `addr a` as its owner and only guest.
pub record Opens (a : ℕ) (h h' : Hotel) : Type 0 where
  pub place : ℕ
  pub unused : h place ≡ none
  pub there : h' place ≡ some (addr a, put a nobody)
  pub elsewhere : Elsewhere place h h'

-- One room, which is not full, gets one guest more, who is not in it yet.
pub record Enters (h h' : Hotel) : Type 0 where
  pub guest : ℕ
  pub place : ℕ
  pub owner : Pointer
  pub others : Bag
  pub was : h place ≡ some (owner, others)
  pub spare : size others < max_clients_per_room
  pub new : occurrences guest others ≡ 0
  pub there : h' place ≡ some (owner, put guest others)
  pub elsewhere : Elsewhere place h h'

-- The client at `addr a`, which is not the owner, is no guest of a room any more.
pub record Parts (a : ℕ) (h h' : Hotel) : Type 0 where
  pub place : ℕ
  pub owner : Pointer
  pub others : Bag
  pub was : h place ≡ some (owner, put a others)
  pub other : owner ≢ addr a
  pub gone : occurrences a others ≡ 0
  pub there : h' place ≡ some (owner, others)
  pub elsewhere : Elsewhere place h h'

-- A room that the client at `addr a` was a guest of is gone.
pub record Closes (a : ℕ) (h h' : Hotel) : Type 0 where
  pub place : ℕ
  pub owner : Pointer
  pub others : Bag
  pub was : h place ≡ some (owner, put a others)
  pub closed : h' place ≡ none
  pub elsewhere : Elsewhere place h h'

abbrev pub Leaves : ℕ → Hotel → Hotel → Type 0
Leaves a h h' = Stays h h' ⊎ (Parts a h h' ⊎ Closes a h h')

abbrev pub Joins : Hotel → Hotel → Type 0
Joins h h' = Stays h h' ⊎ Enters h h'

-- What a message with that tag may do: only three tags do anything, and a room is always made.
pub data Change (a : ℕ) (tag : ℤ) (h h' : Hotel) : Type 0 where
  stays : tag ≢ room_create_requested_tag → Stays h h' → Change a tag h h'
  opens : tag ≡ room_create_requested_tag → Opens a h h' → Change a tag h h'
  enters : tag ≡ join_room_accepted_tag → Enters h h' → Change a tag h h'
  parts : tag ≡ leave_room_requested_tag → Parts a h h' → Change a tag h h'
  closes : tag ≡ leave_room_requested_tag → Closes a h h' → Change a tag h h'

-- The command returns, in a sound state, with that change.
abbrev pub Does : (Hotel → Hotel → Type 0) → Cmd (Unit {0}) → World → Type 0
Does C m w = (w' : World) × (m w ≡ ok (tt, w')) × Sound w' × C (hotel w) (hotel w')

-- The same for another command that does the same in that state, and for a weaker condition.
pub same_run-Does :
    (C D : Hotel → Hotel → Type 0) (m n : Cmd (Unit {0})) (w : World)
    → m w ≡ n w
    → ((h h' : Hotel) → C h h' → D h h')
    → Does C n w
    → Does D m w
same_run-Does C D m n w e weaker (w', runs, sound, change) =
    (w', e ∙ runs, sound, weaker (hotel w) (hotel w') change)
