-- ===== src/Room/RoundTrip.antt =====
-- A client that joins a room and leaves it again (server/room.c).
use lso_server.Base.{
  ℕ, zero, suc, ◌+◌, ◌<◌, ◌≡◌, ◌≢◌, refl, ap, sym, subst, ◌∙◌, ◌⊎◌, inl, inr, List, [], ◌∷◌, Option,
  some, none, ok, true, false, Bool, Bool-cases, pos, arith, get_elem?, set, set-set, set-same,
  get_elem?-lt, get_elem?-set_self, ◌+ℤ◌, ◌-ℤ◌, pos-+ℤ, pos--ℤ, eqb_ℤ, if◌then◌else◌, ℤ,
}
use lso_server.World.{Pointer, null, addr, Client, Room, World, object, put_object, join, ◌>>◌}
use lso_server.World.Heap.{object-put_self}
use lso_server.World.Laws.{Ends}
use lso_server.ClientPool.Lookup.{Slots}
use lso_server.Room.{room_add_client, room_remove_client}
use lso_server.Room.Joining.{last_empty, has_user, is_user, room_add_client-joins, last_empty-slot}
use lso_server.Room.Leaving.{room_remove_client-leaves}
use lso_server.Invariant.{Inv, occupied}
use lso_server.Invariant.Keeps.{Kept, Kept-self}
use lso_server.Invariant.Rooms.{room_add_client-Stable}
use lso_server.Invariant.Carried.{Slots-joined}
use lso_server.Invariant.Slots.{set-slot-cases}

join-some : {A : Type 0} (o : Option (Option A)) (x : A) → join o ≡ some x → o ≡ some (some x)
join-some none x e = cc
join-some (some o) x e = ap some e

-- An object that is assigned and then assigned its old value.
restored :
    {A : Type 0} (heap : List (Option A)) (a : ℕ) (x : A) (o : Option A)
    → object heap (addr a) ≡ some x
    → put_object (put_object heap (addr a) o) (addr a) (some x) ≡ heap
restored heap a x o e =
    set-set heap a o (some x) ∙ set-same heap a (some x) (join-some (get_elem? heap a) x e)

equal_user : (z : ℤ) → eqb_ℤ z z ≡ true
equal_user z = ground arith

module _ (w : World) (a : ℕ) (c : Client) (live : object w.clients (addr a) ≡ some c) where
  present-true : (ps : List Pointer) → has_user w c ps true ≡ true
  present-true [] = refl
  present-true (p ∷ ps) = elim (Bool-cases (is_user c (object w.clients p))) [
    | inl h ↦ rw h (present-true ps)
    | inr h ↦ rw h (present-true ps)
  ]

  -- If no member has its user, the client is in no slot.
  pub has_user-absent :
      (ps : List Pointer) (b : Bool) (k : ℕ)
      → has_user w c ps b ≡ false
      → get_elem? ps k ≢ some (addr a)
  has_user-absent [] b k h e = cc
  has_user-absent (p ∷ ps) b zero h e = clash (sym (present-true ps) ∙ sym found ∙ h)
    where
      same : some p ≡ some (addr a) → p ≡ addr a
      same e = cc

      is_it : is_user c (object w.clients p) ≡ true
      is_it =
          ap (λ (q : Pointer). is_user c (object w.clients q)) (same e)
          ∙ rw live (equal_user c.user.id)

      found : has_user w c (p ∷ ps) b ≡ has_user w c ps true
      found = rw is_it

      clash : true ≡ false → ⊥
      clash f = cc
  has_user-absent (p ∷ ps) b (suc k) h e =
      has_user-absent ps (if is_user c (object w.clients p) then true else b) k h e

-- One member more and one less.
counted_back : (z : ℤ) (n : ℕ) → z ≡ pos n → (z +ℤ pos 1) -ℤ pos 1 ≡ z
counted_back z n e =
    ap (λ x. (x +ℤ pos 1) -ℤ pos 1) e
    ∙ ap (λ x. x -ℤ pos 1) (pos-+ℤ n 1)
    ∙ pos--ℤ (n + 1) 1 (omega arith)
    ∙ ap pos (omega arith)
    ∙ sym e

same_room :
    (r : Room) (i : ℕ) (p : Pointer) (n : ℕ)
    → get_elem? r.clients i ≡ some null
    → r.clients_count ≡ pos n
    → Path Room
        (record r {
          clients = set (set r.clients i p) i null;
          clients_count = (r.clients_count +ℤ pos 1) -ℤ pos 1;
        })
        r
same_room r i p n empty count =
    ap
      (λ (ps : List Pointer). record r {
        clients = ps;
        clients_count = (r.clients_count +ℤ pos 1) -ℤ pos 1;
      })
      (set-set r.clients i p null ∙ set-same r.clients i null empty)
    ∙ ap (λ z. record r { clients_count = z }) (counted_back r.clients_count n count)

-- In a state that satisfies the invariant, a client in no room whose user is not among the members
-- joins a room that has an empty slot and whose slots are empty or lead to clients, and leaves it
-- again: the state is as it was before.
pub room_remove_client-room_add_client :
    (w : World) (b : ℕ) (r : Room) (i a : ℕ) (c : Client)
    → Inv w
    → object w.clients (addr a) ≡ some c
    → c.room ≡ null
    → object w.rooms (addr b) ≡ some r
    → Slots w r.clients
    → last_empty r.clients 0 none ≡ some i
    → has_user w c r.clients false ≡ false
    → (room_add_client (addr b) (addr a) >> room_remove_client (addr b) (addr a)) w ≡ ok (true, w)
room_remove_client-room_add_client w b r i a c v live alone there slots slot new =
    let empty = last_empty-slot r.clients i slot in
    let c' : Client = record c { room = addr b } in
    let r' : Room = record r {
      clients = set r.clients i (addr a);
      clients_count = r.clients_count +ℤ pos 1;
    } in
    let w' : World = record w {
      rooms = put_object w.rooms (addr b) (some r');
      clients = put_object w.clients (addr a) (some c');
    } in
    let adds = room_add_client-joins w (addr a) c live (addr b) r there slots i slot new in
    let kept : Kept w w' =
      subst (Ends (λ _. Kept w)) adds
        ((room_add_client-Stable (addr b) (addr a)).runs w w (Kept-self w v)) in
    let removes =
      room_remove_client-leaves w' b r' i a c' kept.inv
        (object-put_self w.rooms b r (some r') there)
        (Slots-joined w a c c' live refl r.clients i empty slots)
        (object-put_self w.clients a c (some c') live)
        (get_elem?-set_self r.clients i (addr a) (get_elem?-lt r.clients i null empty))
        (first empty) in
    rw adds (removes ∙ ap (λ (x : World). ok (true, x)) (back empty))
  where
    first :
        get_elem? r.clients i ≡ some null
        → (k : ℕ) → k < i
        → get_elem? (set r.clients i (addr a)) k ≢ some (addr a)
    first empty k h e =
        other
          (set-slot-cases r.clients i k (addr a) (addr a) (get_elem?-lt r.clients i null empty) e)
      where
        other :
            ((k ≡ i) × (addr a ≡ addr a)) ⊎ ((k ≢ i) × (get_elem? r.clients k ≡ some (addr a))) → ⊥
        other (inl (same, f)) = absurd (omega arith)
        other (inr (ne, f)) = has_user-absent w a c live r.clients false k new f

    back :
        get_elem? r.clients i ≡ some null
        → Path World
            (record w {
              rooms =
                  put_object
                    (put_object w.rooms (addr b) (
                      some (record r {
                        clients = set r.clients i (addr a);
                        clients_count = r.clients_count +ℤ pos 1;
                      })))
                    (addr b)
                    (some (record r {
                      clients = set (set r.clients i (addr a)) i null;
                      clients_count = (r.clients_count +ℤ pos 1) -ℤ pos 1;
                    }));
              clients =
                  put_object
                    (put_object w.clients (addr a) (some (record c { room = addr b })))
                    (addr a)
                    (some (record c { room = null }));
            })
            w
    back empty =
        let r' : Room = record r {
          clients = set r.clients i (addr a);
          clients_count = r.clients_count +ℤ pos 1;
        } in
        let c' : Client = record c { room = addr b } in
        let rooms =
          ap (λ (s : Room). put_object (put_object w.rooms (addr b) (some r')) (addr b) (some s))
            (same_room r i (addr a) (occupied r.clients) empty (v.table.room b r there).counted)
          ∙ restored w.rooms b r (some r') there in
        let clients =
          ap
            (λ (q : Pointer).
              put_object (put_object w.clients (addr a) (some c')) (addr a)
                (some (record c { room = q })))
            (sym alone)
          ∙ restored w.clients a c (some c') live in
        ap
          (λ (h : List (Option Room)). record w {
            rooms = h;
            clients =
                put_object (put_object w.clients (addr a) (some c')) (addr a)
                  (some (record c { room = null }));
          })
          rooms
        ∙ ap (λ (h : List (Option Client)). record w { clients = h }) clients
