-- ===== src/Soundness/Parting.antt =====
-- A member of a room leaves (server/client.c), in a sound state.
use lso_server.Base.{
  ℕ, suc, zero, ◌<◌, ◌≡◌, ◌≢◌, refl, ap, sym, subst, ◌∙◌, ◌⊎◌, inl, inr, List, [], ◌∷◌, ◌++◌, some,
  pos, true, false, ok, arith, eqb_ℤ, eqb_ℤ_refl, Bool-cases, get_elem?, ◌-ℤ◌,
}
use lso_server.World.{Pointer, null, addr, Client, Room, World, object}
use lso_server.World.Heap.{object-Put, object-put_self, Put}
use lso_server.World.Laws.{get_client-live}
use lso_server.Invariant.Handlers.{handle_leave_room_tag-Stable}
use lso_server.Handlers.{handle_leave_room_tag}
use lso_server.Handlers.Released.{released, released-live, released-IsAlone}
use lso_server.Handlers.Unmoved.{released-Before}
use lso_server.Handlers.Closing.{closed, handle_leave_room_tag-closes}
use lso_server.Handlers.Departure.{handle_leave_room_tag-leaves}
use lso_server.Soundness.{IsMember, Sound, Stands}
use lso_server.Soundness.Heaps.{some_eq, addr_eq}
use lso_server.Soundness.Leaving.{Housed-leave}
use lso_server.Soundness.Closing.{Housed-close}
use lso_server.Soundness.Guests.{hotel, Leaves}
use lso_server.Soundness.Visits.{Parts-slot, Closes-room}
use lso_server.Soundness.Outcomes.{
  Older, Stable-Sound, signed_name, room-Slots, slot-IsMember, owner-IsMember,
}

module _ (w : World) (v : Sound w) (a : ℕ) (c : Client)
    (live : object w.clients (addr a) ≡ some c) where
  -- The client is still there, in no room.
  abbrev IsOut : World → Type 0
  IsOut w' = (d : Client) × (object w'.clients (addr a) ≡ some d) × (d.room ≡ null)

  abbrev Left : Type 0
  Left =
      (w' : World) × (handle_leave_room_tag (addr a) w ≡ ok (tt, w'))
      × Sound w'
      × Leaves a (hotel w) (hotel w')
      × IsOut w'

  -- Those who are in a room stand in its slots, and so does the client.
  abbrev present : Room → List Pointer
  present r = r.clients ++ addr a ∷ []

  present-slot :
      (r : Room) (j : ℕ) (q : Pointer)
      → get_elem? r.clients j ≡ some q
      → get_elem? (present r) j ≡ some q
  present-slot r j q at = front r.clients j at
    where
      front :
          (ps : List Pointer) (j : ℕ)
          → get_elem? ps j ≡ some q
          → get_elem? (ps ++ addr a ∷ []) j ≡ some q
      front [] j e = cc
      front (p ∷ ps) zero e = e
      front (p ∷ ps) (suc j) e = front ps j e

  present-back :
      (ps : List Pointer) (j : ℕ) (q : Pointer)
      → get_elem? (ps ++ addr a ∷ []) j ≡ some q
      → (get_elem? ps j ≡ some q) ⊎ (addr a ≡ q)
  present-back [] zero q e = inr (some_eq e)
  present-back [] (suc j) q e = cc
  present-back (p ∷ ps) zero q e = inl e
  present-back (p ∷ ps) (suc j) q e = present-back ps j q e

  module _ (b : ℕ) (r : Room) (i : ℕ) (inside : c.room ≡ addr b)
      (there : object w.rooms (addr b) ≡ some r) (at : get_elem? r.clients i ≡ some (addr a)) where
    all :
        (k : ℕ) (x : Client)
        → object w.clients (addr k) ≡ some x
        → x.room ≡ addr b
        → (j : ℕ) × (get_elem? (present r) j ≡ some (addr k))
    all k x e room = slot (v.housed.stands k x e)
      where
        clash : addr b ≡ null → ⊥
        clash f = cc

        slot : Stands w.rooms k x → (j : ℕ) × (get_elem? (present r) j ≡ some (addr k))
        slot (inl alone) = absurd (clash (sym room ∙ alone))
        slot (inr (d, s, j, f, g, h)) =
            let same : d ≡ b = addr_eq (sym f ∙ room) in
            let here : s ≡ r =
              some_eq (sym g ∙ ap (λ (n : ℕ). object w.rooms (addr n)) same ∙ there) in
            (j, present-slot r j (addr k) (ap (λ (y : Room). get_elem? y.clients j) (sym here) ∙ h))

    only : (j k : ℕ) → get_elem? (present r) j ≡ some (addr k) → IsMember w.clients b k
    only j k e = member (present-back r.clients j (addr k) e)
      where
        member :
            (get_elem? r.clients j ≡ some (addr k)) ⊎ (addr a ≡ addr k) → IsMember w.clients b k
        member (inl h) = slot-IsMember w v b r j k there h
        member (inr h) =
            subst (IsMember w.clients b) (addr_eq h) (slot-IsMember w v b r i a there at)

    closes :
        (o : ℕ) (m : IsMember w.clients b o)
        → r.owner ≡ addr o
        → eqb_ℤ m.client.user.id c.user.id ≡ true
        → Left
    closes o m owned same =
        let (runs, _) =
          handle_leave_room_tag-closes w a b c m.client r v.inv live inside there
            (room-Slots w v b r there) (ap (object w.clients) owned ∙ m.live) same in
        (
          closed w a b r,
          runs,
          Stable-Sound (handle_leave_room_tag (addr a)) w (closed w a b r)
              (handle_leave_room_tag-Stable (addr a)) v runs
              (Housed-close w.clients w.rooms v.housed b r there (present r) all only) older,
          inr (inr (Closes-room w a b i r there at)),
          out (released-live w.clients (present r) a c live),
        )
      where
        out :
            ((d : Client) × (object (released w.clients (present r)) (addr a) ≡ some d))
            → IsOut (closed w a b r)
        out (d, e) =
            (d, e, released-IsAlone w.clients (present r) i a (present-slot r i (addr a) at) d e)

        older : Older w (closed w a b r)
        older k x e = let (y, e', _, _) = released-Before w.clients (present r) k x e in (y, e')

    leaves :
        (o : ℕ) (m : IsMember w.clients b o)
        → r.owner ≡ addr o
        → eqb_ℤ m.client.user.id c.user.id ≡ false
        → Left
    leaves o m owned other =
        let s = slot-IsMember w v b r i a there at in
        let (name, rest, named, text, bytes) = signed_name s.client.user.name s.signed in
        let same : s.client ≡ c = some_eq (sym s.live ∙ live) in
        let runs =
          handle_leave_room_tag-leaves w a b i c m.client r name rest v.inv live inside there
            (room-Slots w v b r there) at first (ap (object w.clients) owned ∙ m.live) other
            (ap (λ (x : Client). x.user.name) (sym same) ∙ named) text bytes in
        (
          _,
          runs,
          Stable-Sound (handle_leave_room_tag (addr a)) w _ (handle_leave_room_tag-Stable (addr a))
              v runs
              (Housed-leave w.clients w.rooms v.housed a b i c r (r.clients_count -ℤ pos 1) live
                inside there at guest)
              (λ k x e.
                older k x (object-Put w.clients a k c (some (record c { room = null })) x live e)),
          inr (inl (Parts-slot w v a b i r (r.clients_count -ℤ pos 1) there at guest)),
          (
            record c { room = null },
            object-put_self w.clients a c (some (record c { room = null })) live,
            refl,
          ),
        )
      where
        first : (k : ℕ) → k < i → get_elem? r.clients k ≢ some (addr a)
        first k h e = absurd (omega (arith, (v.housed.house b r there).once k i a e at))

        clash : true ≡ false → ⊥
        clash e = cc

        guest : r.owner ≢ addr a
        guest e =
            let mine : m.client ≡ c = some_eq (
              sym m.live
              ∙ ap (λ (n : ℕ). object w.clients (addr n)) (addr_eq (sym owned ∙ e))
              ∙ live) in
            clash (
              sym (eqb_ℤ_refl c.user.id)
              ∙ ap (λ (x : Client). eqb_ℤ x.user.id c.user.id) (sym mine)
              ∙ other)

        older :
            (k : ℕ) (x : Client)
            → Put w.clients a k (some (record c { room = null })) x
            → (y : Client) × (object w.clients (addr k) ≡ some y)
        older k x (inl (e, f)) = (c, ap (λ (n : ℕ). object w.clients (addr n)) (sym e) ∙ live)
        older k x (inr (ne, f)) = (x, f)

  alone_stays : c.room ≡ null → Left
  unfolding handle_leave_room_tag
  alone_stays alone =
      (w, rw (get_client-live (addr a) w c live, alone) refl, v, inl (λ k. refl), (c, live, alone))

  pub handle_leave_room_tag-Leaves :
      (w' : World) × (handle_leave_room_tag (addr a) w ≡ ok (tt, w'))
      × Sound w'
      × Leaves a (hotel w) (hotel w')
      × ((d : Client) × (object w'.clients (addr a) ≡ some d) × (d.room ≡ null))
  handle_leave_room_tag-Leaves = cases (v.housed.stands a c live)
    where
      cases : Stands w.rooms a c → Left
      cases (inl alone) = alone_stays alone
      cases (inr (b, r, i, inside, there, at)) =
          let (o, owned, m) = owner-IsMember w v b r there in
          elim (Bool-cases (eqb_ℤ m.client.user.id c.user.id)) [
            | inl same ↦ closes b r i inside there at o m owned same
            | inr other ↦ leaves b r i inside there at o m owned other
          ]
