-- ===== src/Soundness/Talking.antt =====
-- A member of a room says something (server/client.c), in a sound state.
use lso_server.Base.{
  ℕ, ◌≡◌, refl, ap, sym, ◌∙◌, ◌⊎◌, inl, inr, List, ◌++◌, some, pos, length, get_elem?,
}
use lso_server.Reader.{Reader}
use lso_server.Reader.Remains.{Remains}
use lso_server.Writer.Strings.{IsBytes}
use lso_server.World.{null, addr, Client, Room, World, object}
use lso_server.World.Laws.{get_client-live}
use lso_server.Invariant.Handlers.{handle_message_received_tag-Stable}
use lso_server.Handlers.{handle_message_received_tag}
use lso_server.Handlers.Relay.{handle_message_received_tag-relays}
use lso_server.Soundness.{Sound, Stands}
use lso_server.Soundness.Heaps.{some_eq}
use lso_server.Soundness.Guests.{Stays, Does}
use lso_server.Soundness.Outcomes.{Stable-Stays, signed_name, room-Slots, slot-IsMember}
use lso_server.Soundness.Polite.{Counts}
use lso_server.Soundness.Asking.{read_number}

module _ (w : World) (v : Sound w) (a : ℕ) (c : Client)
    (live : object w.clients (addr a) ≡ some c) where
  -- In no room there is nobody to talk to.
  silent :
      (reader : Reader) → c.room ≡ null → Does Stays (handle_message_received_tag (addr a) reader) w
  unfolding handle_message_received_tag
  silent reader alone =
      Stable-Stays (handle_message_received_tag (addr a) reader) w w.sent
        (handle_message_received_tag-Stable (addr a) reader) v
        (rw (get_client-live (addr a) w c live, alone) refl)

  spoken :
      (reader : Reader) (xs cs ys : List ℕ) (b : ℕ) (r : Room) (i : ℕ)
      → Remains reader xs
      → Counts xs (pos (length cs)) (cs ++ ys)
      → IsBytes cs
      → IsBytes ys
      → c.room ≡ addr b
      → object w.rooms (addr b) ≡ some r
      → get_elem? r.clients i ≡ some (addr a)
      → Does Stays (handle_message_received_tag (addr a) reader) w
  spoken reader xs cs ys b r i rem number chars others inside there at =
      let m = slot-IsMember w v b r i a there at in
      let (name, rest, named, text, bytes) = signed_name m.client.user.name m.signed in
      let same : m.client ≡ c = some_eq (sym m.live ∙ live) in
      Stable-Stays (handle_message_received_tag (addr a) reader) w _
        (handle_message_received_tag-Stable (addr a) reader) v
        (handle_message_received_tag-relays w (addr a) c b r reader number.b0 number.b1 number.b2
          number.b3 cs ys name rest live inside there (room-Slots w v b r there)
          (ap (λ (x : Client). x.user.name) (sym same) ∙ named) text bytes
          (read_number reader xs (pos (length cs)) (cs ++ ys) number rem) number.value chars others)

  pub handle_message_received_tag-Stays :
      (reader : Reader) (xs cs ys : List ℕ)
      → Remains reader xs
      → (c.room ≡ null) ⊎ (Counts xs (pos (length cs)) (cs ++ ys) × IsBytes cs × IsBytes ys)
      → Does Stays (handle_message_received_tag (addr a) reader) w
  handle_message_received_tag-Stays reader xs cs ys rem (inl alone) = silent reader alone
  handle_message_received_tag-Stays reader xs cs ys rem (inr (number, chars, others)) =
      cases (v.housed.stands a c live)
    where
      cases : Stands w.rooms a c → Does Stays (handle_message_received_tag (addr a) reader) w
      cases (inl alone) = silent reader alone
      cases (inr (b, r, i, inside, there, at)) =
          spoken reader xs cs ys b r i rem number chars others inside there at
