-- ===== src/Room/Creation.antt =====
-- `room_create` of server/room.c, on a name that fits.
use lso_server.Base.{
  ℕ, suc, ◌+◌, ◌<◌, ◌≡◌, refl, ap, sym, ◌∙◌, List, [], ◌∷◌, ◌++◌, Option, some, ok, true, arith,
  ltb, leb, length, take, drop, set, set-append, length-append, append_assoc,
}
use lso_server.Memory.{Block, malloc_bytes, memcpy}
use lso_server.Memory.Laws.{init, NonZero, strlen-init, length-malloc, length-init}
use lso_server.World.{addr, string, Room, World, put_object, malloc_room}
use lso_server.Room.{room_create, strcpy, set_g_room, max_room_name}
use lso_server.Invariant.Registry.{made}

-- The block of a name: what `strcpy` leaves behind its terminator was never written.
abbrev pub room_name : List ℕ → Block
room_name cs = init cs ++ some 0 ∷ drop (length cs + 1) (malloc_bytes max_room_name)

take-front :
    {A : Type 0} (xs ys : List A) (y : A) → take (length xs + 1) (xs ++ y ∷ ys) ≡ xs ++ y ∷ []
take-front [] ys y = refl
take-front (x ∷ xs) ys y =
    ap (λ (n : ℕ). take n (x ∷ (xs ++ y ∷ ys))) {y = suc (length xs + 1)} (omega arith)
    ∙ ap (◌∷◌ x) (take-front xs ys y)

strcpy-room_name :
    (cs : List ℕ) (rest : Block)
    → NonZero cs
    → length cs < max_room_name
    → strcpy (malloc_bytes max_room_name) (init cs ++ some 0 ∷ rest) ≡ ok (room_name cs)
unfolding strcpy memcpy
strcpy-room_name cs rest text short = rw (strlen-init cs rest text, fits, fits', front)
  where
    fits : leb (length cs + 1) (length (malloc_bytes max_room_name)) ≡ true
    fits = ground (arith, length-malloc max_room_name)

    fits' : leb (length cs + 1) (length (init cs ++ some 0 ∷ rest)) ≡ true
    fits' = ground (arith, length-append (init cs) (some 0 ∷ rest), length-init cs)

    front :
        take (length cs + 1) (init cs ++ some 0 ∷ rest)
          ++ drop (length cs + 1) (malloc_bytes max_room_name)
        ≡ room_name cs
    front =
        ap
          (λ (n : ℕ).
            take (n + 1) (init cs ++ some 0 ∷ rest)
            ++ drop (length cs + 1) (malloc_bytes max_room_name))
          (sym (length-init cs))
        ∙ ap (λ (m : Block). m ++ drop (length cs + 1) (malloc_bytes max_room_name))
            (take-front (init cs) rest (some 0))
        ∙ append_assoc (init cs) (some 0 ∷ []) (drop (length cs + 1) (malloc_bytes max_room_name))

-- What stands behind a heap, assigned.
pub put-malloc :
    {A : Type 0} (heap : List (Option A)) (o o' : Option A)
    → put_object (heap ++ o ∷ []) (addr (length heap)) o' ≡ heap ++ o' ∷ []
put-malloc heap o o' =
    ap (λ (n : ℕ). set (heap ++ o ∷ []) n o') {y = length heap + 0} (omega arith)
    ∙ set-append heap (o ∷ []) 0 o'

-- The state with the new room.
abbrev pub with_room : World → Room → World
with_room w r = record w {
  counter_room = w.counter_room + 1;
  rooms = w.rooms ++ some r ∷ [];
  g_rooms = set w.g_rooms w.counter_room (addr (length w.rooms));
}

-- A name of at most 31 characters, while the table has a place for the next id, makes a room with
-- that name and id, no members and no owner yet, and puts it into the table at its id.
pub room_create-made :
    (w : World) (cs : List ℕ) (rest : Block)
    → NonZero cs
    → length cs < max_room_name
    → w.counter_room < length w.g_rooms
    → room_create (string (init cs ++ some 0 ∷ rest)) w
      ≡ ok (addr (length w.rooms), with_room w (made w (room_name cs)))
unfolding room_create set_g_room malloc_room
room_create-made w cs rest text short place = rw (strcpy-room_name cs rest text short, inside)
  where
    inside : ltb w.counter_room (length w.g_rooms) ≡ true
    inside = ground arith
