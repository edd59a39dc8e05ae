-- ===== src/Room/Joining.antt =====
-- `room_add_client` of server/room.c: which slot a client gets, and when it gets one.
use lso_server.Base.{
  ℕ, suc, ◌+◌, ◌≡◌, refl, ◌⊎◌, inl, inr, List, [], ◌∷◌, Option, some, none, pos, ok, fault, Bool,
  true, false, set, get_elem?, arith, ap, ◌∙◌, eqb_ℤ, if◌then◌else◌, ◌+ℤ◌,
}
use lso_server.World.{Pointer, null, wild, addr, Client, Room, World, object, put_object, is_null}
use lso_server.World.Laws.{
  get_client-live, get_room-live, get_room-dead, set_room-live, set_client-live,
}
use lso_server.ClientPool.Lookup.{Slots}
use lso_server.Room.{scan_room, already_in, place_client, room_add_client}

-- The last empty slot, counted from `i`, and whether a member has the user id of `c`.
abbrev pub last_empty : List Pointer → ℕ → Option ℕ → Option ℕ
last_empty [] i index = index
last_empty (p ∷ ps) i index = last_empty ps (i + 1) (if is_null p then some i else index)

-- The slot that it finds is empty, unless it was there before.
abbrev Emptied : List Pointer → ℕ → Option ℕ → ℕ → Type 0
Emptied ps i index j = (index ≡ some j) ⊎ ((k : ℕ) × (j ≡ i + k) × (get_elem? ps k ≡ some null))

Emptied-later :
    (p : Pointer) (ps : List Pointer) (i : ℕ) (index : Option ℕ) (j : ℕ)
    → Emptied ps (i + 1) index j
    → Emptied (p ∷ ps) i index j
Emptied-later p ps i index j (inl e) = inl e
Emptied-later p ps i index j (inr (k, e, at)) = inr (suc k, omega arith, at)

Emptied-here :
    (ps : List Pointer) (i : ℕ) (index : Option ℕ) (j : ℕ)
    → Emptied ps (i + 1) (some i) j
    → Emptied (null ∷ ps) i index j
Emptied-here ps i index j (inl e) = inr (0, ground arith, refl)
Emptied-here ps i index j (inr (k, e, at)) = inr (suc k, omega arith, at)

last_empty-Emptied :
    (ps : List Pointer) (i : ℕ) (index : Option ℕ) (j : ℕ)
    → last_empty ps i index ≡ some j
    → Emptied ps i index j
last_empty-Emptied [] i index j e = inl e
last_empty-Emptied (null ∷ ps) i index j e =
    Emptied-here ps i index j (last_empty-Emptied ps (i + 1) (some i) j e)
last_empty-Emptied (wild ∷ ps) i index j e =
    Emptied-later wild ps i index j (last_empty-Emptied ps (i + 1) index j e)
last_empty-Emptied (addr a ∷ ps) i index j e =
    Emptied-later (addr a) ps i index j (last_empty-Emptied ps (i + 1) index j e)

pub last_empty-slot :
    (ps : List Pointer) (i : ℕ) → last_empty ps 0 none ≡ some i → get_elem? ps i ≡ some null
last_empty-slot ps i e = slot (last_empty-Emptied ps 0 none i e)
  where
    slot : Emptied ps 0 none i → get_elem? ps i ≡ some null
    slot (inl f) = cc
    slot (inr (k, f, at)) = ap (get_elem? ps) {y = k} (omega arith) ∙ at

abbrev pub is_user : Client → Option Client → Bool
is_user c none = false
is_user c (some d) = eqb_ℤ d.user.id c.user.id

abbrev pub has_user : World → Client → List Pointer → Bool → Bool
has_user w c [] present = present
has_user w c (p ∷ ps) present =
    has_user w c ps (if is_user c (object w.clients p) then true else present)

module _ (w : World) (client : Pointer) (c : Client) (live : object w.clients client ≡ some c) where
  pub scan_room-returns :
      (ps : List Pointer) (i : ℕ) (index : Option ℕ) (present : Bool)
      → Slots w ps
      → scan_room client ps i index present w
        ≡ ok ((last_empty ps i index, has_user w c ps present), w)
  unfolding scan_room
  scan_room-returns [] i index present slots = refl
  scan_room-returns (null ∷ ps) i index present slots =
      scan_room-returns ps (i + 1) (some i) present (λ k. slots (suc k))
  scan_room-returns (wild ∷ ps) i index present slots = absurd (nothing (slots 0 wild refl))
    where
      nothing : (wild ≡ null) ⊎ ((d : Client) × (object w.clients wild ≡ some d)) → ⊥
      nothing (inl e) = cc
      nothing (inr (d, e)) = cc
  scan_room-returns (addr a ∷ ps) i index present slots =
      member (slots 0 (addr a) refl) λ b. scan_room-returns ps (i + 1) index b (λ k. slots (suc k))
    where
      member :
          (addr a ≡ null) ⊎ ((d : Client) × (object w.clients (addr a) ≡ some d))
          → ((b : Bool)
              → scan_room client ps (i + 1) index b w
                ≡ ok ((last_empty ps (i + 1) index, has_user w c ps b), w))
          → scan_room client (addr a ∷ ps) i index present w
            ≡ ok ((last_empty (addr a ∷ ps) i index, has_user w c (addr a ∷ ps) present), w)
      member (inl e) rest = cc
      member (inr (d, e)) rest =
          rw (get_client-live (addr a) w d e, get_client-live client w c live, e)
            (rest (if eqb_ℤ d.user.id c.user.id then true else present))

  module _ (room : Pointer) (r : Room) (there : object w.rooms room ≡ some r)
      (slots : Slots w r.clients) where
    -- With no slot empty, nothing changes.
    pub room_add_client-full :
        last_empty r.clients 0 none ≡ none → room_add_client room client w ≡ ok (tt, w)
    unfolding room_add_client
    room_add_client-full full =
        rw (get_room-live room w r there, scan_room-returns r.clients 0 none false slots, full)

    -- If the slots of a room are empty or lead to clients, a client whose user is not yet among
    -- the members gets the last empty slot; the room counts one member more, the client is in the
    -- room, and nothing else changes.
    pub room_add_client-joins :
        (i : ℕ)
        → last_empty r.clients 0 none ≡ some i
        → has_user w c r.clients false ≡ false
        → room_add_client room client w
          ≡ ok (
            tt,
            record w {
              rooms = put_object w.rooms room (
                  some (record r {
                    clients = set r.clients i client;
                    clients_count = r.clients_count +ℤ pos 1;
                  }));
              clients = put_object w.clients client (some (record c { room = room }));
            },
          )
    unfolding room_add_client already_in place_client
    room_add_client-joins i slot new =
        let r' = record r {
          clients = set r.clients i client;
          clients_count = r.clients_count +ℤ pos 1;
        } in
        let w' = record w { rooms = put_object w.rooms room (some r') } in
        rw (
          get_room-live room w r there,
          scan_room-returns r.clients 0 none false slots,
          slot,
          new,
          get_room-live room w r there,
          set_room-live room w r r' there,
          get_client-live client w' c live,
          set_client-live client w' c (record c { room = room }) live,
        )

    -- If a room has an empty slot, a client that is in no room but whose user is among the members
    -- makes room_add_client read through a null pointer.
    pub room_add_client-twice :
        (i : ℕ)
        → last_empty r.clients 0 none ≡ some i
        → has_user w c r.clients false ≡ true
        → c.room ≡ null
        → room_add_client room client w ≡ fault
    unfolding room_add_client already_in
    room_add_client-twice i slot present alone = rw (
      get_room-live room w r there,
      scan_room-returns r.clients 0 none false slots,
      slot,
      present,
      get_client-live client w c live,
      alone,
      get_room-dead null w refl,
    )
