-- ===== src/Soundness/Asking.antt =====
-- A client asks to join a room (server/client.c), in a sound state.
use lso_server.Base.{
  ℕ, ◌<◌, ◌≡◌, ap, subst, ◌∙◌, ◌⊎◌, inl, inr, List, ◌∷◌, some, ℤ, pos, false, arith, eqb_ℤ,
  eqb_ℤ→eq, Bool-cases, get_elem?, get_elem?-some,
}
use lso_server.Reader.{Reader}
use lso_server.Reader.Remains.{Remains}
use lso_server.World.{Pointer, null, addr, Client, Room, World, object}
use lso_server.Room.{max_rooms, max_clients_per_room}
use lso_server.Invariant.Handlers.{handle_join_room_requested_tag-Stable}
use lso_server.Handlers.{handle_join_room_requested_tag}
use lso_server.Handlers.Replies.{
  handle_join_room_requested_tag-refused, handle_join_room_requested_tag-asks,
}
use lso_server.Soundness.{IsSigned, Sound}
use lso_server.Soundness.Guests.{Stays, Does}
use lso_server.Soundness.Outcomes.{reply-Stays, signed_name, owner-IsMember}
use lso_server.Soundness.Polite.{Counts}

-- A number at the front of a payload.
pub read_number :
    (reader : Reader) (xs : List ℕ) (z : ℤ) (ys : List ℕ) (n : Counts xs z ys)
    → Remains reader xs
    → Remains reader (n.b0 ∷ n.b1 ∷ n.b2 ∷ n.b3 ∷ ys)
read_number reader xs z ys n rem = subst (Remains reader) n.split rem

module _ (w : World) (v : Sound w) where
  -- What the table of rooms has at an id.
  pub table_room :
      (n : ℕ)
      → n < max_rooms
      → (p : Pointer) × (get_elem? w.g_rooms n ≡ some p)
        × ((p ≡ null) ⊎ ((b : ℕ) × (r : Room) × (p ≡ addr b) × (object w.rooms (addr b) ≡ some r)))
  table_room n h =
      let (p, at) = get_elem?-some w.g_rooms n (omega (arith, v.inv.table.size)) in
      (p, at, room p (v.inv.table.listed n p at))
    where
      room :
          (p : Pointer)
          → (p ≡ null)
            ⊎ ((b : ℕ) × (r : Room) × (p ≡ addr b)
                × (object w.rooms (addr b) ≡ some r)
                × (r.id ≡ n))
          → (p ≡ null) ⊎ ((b : ℕ) × (r : Room) × (p ≡ addr b) × (object w.rooms (addr b) ≡ some r))
      room p (inl e) = inl e
      room p (inr (b, r, e, there, numbered)) = inr (b, r, e, there)

  pub handle_join_room_requested_tag-Stays :
      (a : ℕ) (c : Client) (reader : Reader) (xs ys : List ℕ) (n : ℕ)
      → object w.clients (addr a) ≡ some c
      → IsSigned c.user.name
      → Remains reader xs
      → Counts xs (pos n) ys
      → n < max_rooms
      → Does Stays (handle_join_room_requested_tag (addr a) reader) w
  handle_join_room_requested_tag-Stays a c reader xs ys n live signed rem number h =
      let (p, at, room) = table_room n h in cases p at room
    where
      Refused : Pointer → Type 0
      Refused p =
          (p ≡ null)
          ⊎ ((r : Room) × (object w.rooms p ≡ some r)
              × (r.clients_count ≡ pos max_clients_per_room))

      refused :
          (p : Pointer)
          → get_elem? w.g_rooms n ≡ some p
          → Refused p
          → Does Stays (handle_join_room_requested_tag (addr a) reader) w
      refused p at why =
          reply-Stays (handle_join_room_requested_tag (addr a) reader) w _
            (handle_join_room_requested_tag-Stable (addr a) reader) v
            (handle_join_room_requested_tag-refused w (addr a) c reader number.b0 number.b1
              number.b2 number.b3 ys (read_number reader xs (pos n) ys number rem) n number.value
              live p at why)

      asked :
          (b : ℕ) (r : Room)
          → get_elem? w.g_rooms n ≡ some (addr b)
          → object w.rooms (addr b) ≡ some r
          → eqb_ℤ r.clients_count (pos max_clients_per_room) ≡ false
          → Does Stays (handle_join_room_requested_tag (addr a) reader) w
      asked b r at there free =
          let (o, owned, m) = owner-IsMember w v b r there in
          let (cs, rest, named, text, bytes) = signed_name c.user.name signed in
          reply-Stays (handle_join_room_requested_tag (addr a) reader) w _
            (handle_join_room_requested_tag-Stable (addr a) reader) v
            (handle_join_room_requested_tag-asks w (addr a) c reader number.b0 number.b1 number.b2
              number.b3 ys (read_number reader xs (pos n) ys number rem) n number.value live b r
              m.client cs rest at there free (ap (object w.clients) owned ∙ m.live) named text
              bytes)

      cases :
          (p : Pointer)
          → get_elem? w.g_rooms n ≡ some p
          → (p ≡ null) ⊎ ((b : ℕ) × (r : Room) × (p ≡ addr b) × (object w.rooms (addr b) ≡ some r))
          → Does Stays (handle_join_room_requested_tag (addr a) reader) w
      cases p at (inl e) = refused p at (inl e)
      cases p at (inr (b, r, e, there)) =
          elim (Bool-cases (eqb_ℤ r.clients_count (pos max_clients_per_room))) [
            | inl full ↦
                refused p at (
                  inr
                    (r, ap (object w.rooms) e ∙ there, eqb_ℤ→eq _ (pos max_clients_per_room) full))
            | inr free ↦ asked b r (at ∙ ap some e) there free
          ]
