-- ===== src/Soundness/Visits.antt =====
-- How the rooms' bags of guests change when a room is made, joined, left or closed
-- (server/room.c).
use lso_server.Base.{
  ℕ, ◌≡◌, ◌≢◌, refl, ap, ◌∙◌, ◌⊎◌, inl, inr, List, [], ◌∷◌, ◌++◌, some, none, ℤ, arith, length,
  length-set, get_elem?, get_elem?-lt, set,
}
use mathlib.Core.Quot
use lso_server.World.{null, wild, addr, Room, World, object, put_object}
use lso_server.World.Heap.{
  object-put_self, object-put_ne, object-malloc_self, object-malloc_ne, object-malloc_new,
}
use lso_server.Invariant.{occupied}
use lso_server.Invariant.Slots.{occupied-set_in, occupied-le-length, set-slot-cases}
use lso_server.Handlers.Creation.{own_room}
use lso_server.Roster.{Bag, put, size, occurrences}
use lso_server.Roster.Slots.{members, bag-set_in, bag-set_out, length-members, count-members}
use lso_server.Soundness.{IsMember, Sound}
use lso_server.Soundness.Guests.{
  seen, rooms_seen, hotel, guests, nobody, Opens, Enters, Parts, Closes,
}

own_room-guests : (w : World) (ds : List ℕ) (a : ℕ) → guests (own_room w ds a) ≡ put a nobody
unfolding put
own_room-guests w ds a = refl

pub Opens-room :
    (w : World) (ds : List ℕ) (a : ℕ)
    → Opens a (hotel w) (rooms_seen (w.rooms ++ some (own_room w ds a) ∷ []))
Opens-room w ds a = record {
  place = length w.rooms;
  unused = ap seen (object-malloc_new w.rooms);
  there =
      ap seen (object-malloc_self w.rooms (own_room w ds a))
      ∙ ap (λ (b : Bag). some (addr a, b)) (own_room-guests w ds a);
  elsewhere = λ k ne. ap seen (object-malloc_ne w.rooms (own_room w ds a) k ne);
}

-- The bag of a room has as many guests as slots are in use.
guests-size :
    (w : World) (v : Sound w) (b : ℕ) (r : Room)
    → object w.rooms (addr b) ≡ some r
    → size (guests r) ≡ occupied r.clients
unfolding size
guests-size w v b r there =
    length-members r.clients λ i e. wildless (v.housed.member b r i wild there e)
  where
    wildless : (wild ≡ null) ⊎ ((a : ℕ) × (wild ≡ addr a) × IsMember w.clients b a) → ⊥
    wildless (inl e) = cc
    wildless (inr (a, e, m)) = cc

guests-none :
    (r : Room) (a : ℕ)
    → ((i : ℕ) → get_elem? r.clients i ≢ some (addr a))
    → occurrences a (guests r) ≡ 0
unfolding occurrences
guests-none r a absent = count-members r.clients a absent

pub Enters-slot :
    (w : World) (v : Sound w) (a b i : ℕ) (r : Room) (n : ℤ)
    → object w.rooms (addr b) ≡ some r
    → get_elem? r.clients i ≡ some null
    → ((k : ℕ) → get_elem? r.clients k ≢ some (addr a))
    → Enters (hotel w) (
        rooms_seen (
          put_object w.rooms
            (addr b)
            (some (record r { clients = set r.clients i (addr a); clients_count = n }))))
Enters-slot w v a b i r n there empty fresh = record {
  guest = a;
  place = b;
  owner = r.owner;
  others = guests r;
  was = ap seen there;
  spare = omega (
    arith,
    guests-size w v b r there,
    occupied-set_in r.clients i (addr a) empty refl,
    occupied-le-length (set r.clients i (addr a)),
    length-set r.clients i (addr a),
    (v.inv.table.room b r there).slots,
  );
  new = guests-none r a fresh;
  there =
      ap seen (object-put_self w.rooms b r _ there)
      ∙ ap (λ (b : Bag). some (r.owner, b)) (bag-set_in r.clients i a empty);
  elsewhere = λ k ne. ap seen (object-put_ne w.rooms b k _ ne);
}

pub Parts-slot :
    (w : World) (v : Sound w) (a b i : ℕ) (r : Room) (n : ℤ)
    → object w.rooms (addr b) ≡ some r
    → get_elem? r.clients i ≡ some (addr a)
    → r.owner ≢ addr a
    → Parts a (hotel w) (
        rooms_seen (
          put_object w.rooms
            (addr b)
            (some (record r { clients = set r.clients i null; clients_count = n }))))
Parts-slot w v a b i r n there at guest = record {
  place = b;
  owner = r.owner;
  others = Quot.mk (members (set r.clients i null));
  was = ap seen there ∙ ap (λ (b : Bag). some (r.owner, b)) (bag-set_out r.clients i a at);
  there = ap seen (object-put_self w.rooms b r _ there);
  gone = guests-none (record r { clients = set r.clients i null; clients_count = n }) a absent;
  other = guest;
  elsewhere = λ k ne. ap seen (object-put_ne w.rooms b k _ ne);
}
  where
    absent : (j : ℕ) → get_elem? (set r.clients i null) j ≢ some (addr a)
    absent j e =
        other (set-slot-cases r.clients i j null (addr a) (get_elem?-lt r.clients i (addr a) at) e)
      where
        other :
            ((j ≡ i) × (addr a ≡ null)) ⊎ ((j ≢ i) × (get_elem? r.clients j ≡ some (addr a))) → ⊥
        other (inl (f, g)) = cc
        other (inr (ne, g)) = ne ((v.housed.house b r there).once j i a g at)

pub Closes-room :
    (w : World) (a b i : ℕ) (r : Room)
    → object w.rooms (addr b) ≡ some r
    → get_elem? r.clients i ≡ some (addr a)
    → Closes a (hotel w) (rooms_seen (put_object w.rooms (addr b) none))
Closes-room w a b i r there at = record {
  place = b;
  owner = r.owner;
  others = Quot.mk (members (set r.clients i null));
  was = ap seen there ∙ ap (λ (b : Bag). some (r.owner, b)) (bag-set_out r.clients i a at);
  closed = ap seen (object-put_self w.rooms b r none there);
  elsewhere = λ k ne. ap seen (object-put_ne w.rooms b k none ne);
}
