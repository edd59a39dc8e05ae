-- ===== src/Soundness/Listing.antt =====
-- In a sound state the list of rooms can be written (server/client.c, `handle_request_rooms_tag`).
use lso_server.Base.{
  ℕ, suc, ◌≡◌, refl, ap, ◌∙◌, ◌⊎◌, inl, inr, false, List, [], ◌∷◌, ◌++◌, some, pos, get_elem?,
}
use lso_server.Utils.RoundTrip.{int32_bytes}
use lso_server.Writer.Strings.{string_bytes}
use lso_server.World.{Pointer, null, addr, Client, Room, World, object, is_null}
use lso_server.Room.{max_clients_per_room}
use lso_server.Messages.Listing.{IsUser, AreUsers, IsListed, AreListed}
use lso_server.Handlers.{handle_request_rooms_tag}
use lso_server.Handlers.Listing.{handle_request_rooms_tag-lists}
use lso_server.Invariant.Handlers.{handle_request_rooms_tag-Stable}
use lso_server.Soundness.{IsMember, Sound}
use lso_server.Soundness.Guests.{Stays, Does}
use lso_server.Soundness.Outcomes.{reply-Stays, signed_name, owner-IsMember}

module _ (w : World) (v : Sound w) where
  member-IsUser :
      (b a : ℕ) (q : Pointer) → q ≡ addr a → IsMember w.clients b a → (us : List ℕ) × IsUser w q us
  member-IsUser b a q e m =
      let (cs, rest, named, text, bytes) = signed_name m.client.user.name m.signed in
      (
        int32_bytes m.client.user.id ++ string_bytes cs,
        record {
          client = m.client;
          name = cs;
          rest = rest;
          live = ap (object w.clients) e ∙ m.live;
          named = named;
          text = text;
          bytes = bytes;
          written = refl;
        },
      )

  used_addr : (q : Pointer) (a : ℕ) → q ≡ addr a → is_null q ≡ false
  used_addr q a e = ap is_null e

  slots-AreUsers :
      (b : ℕ) (ps : List Pointer)
      → ((i : ℕ) (q : Pointer)
          → get_elem? ps i ≡ some q
          → (q ≡ null) ⊎ ((a : ℕ) × (q ≡ addr a) × IsMember w.clients b a))
      → (us : List ℕ) × AreUsers w ps us
  slots-AreUsers b [] slots = ([], refl)
  slots-AreUsers b (p ∷ ps) slots =
      first (slots 0 p refl) (slots-AreUsers b ps (λ i. slots (suc i)))
    where
      first :
          (p ≡ null) ⊎ ((a : ℕ) × (p ≡ addr a) × IsMember w.clients b a)
          → ((us : List ℕ) × AreUsers w ps us)
          → (us : List ℕ) × AreUsers w (p ∷ ps) us
      first (inl e) (us, users) = (us, inl (e, users))
      first (inr (a, e, m)) (vs, users) =
          let (us, user) = member-IsUser b a p e m in
          (us ++ vs, inr (us, vs, used_addr p a e, user, users, refl))

  room-IsListed :
      (b : ℕ) (r : Room) (q : Pointer)
      → q ≡ addr b
      → object w.rooms (addr b) ≡ some r
      → (us : List ℕ) × IsListed w q us
  room-IsListed b r q e there =
      let title = (v.housed.house b r there).titled in
      let (o, owned, m) = owner-IsMember w v b r there in
      let (owner, user) = member-IsUser b o r.owner owned m in
      let (members, users) =
        slots-AreUsers b r.clients (λ i p at. v.housed.member b r i p there at) in
      (
        int32_bytes (pos r.id)
            ++ (int32_bytes r.clients_count
                ++ (int32_bytes (pos max_clients_per_room)
                    ++ (string_bytes title.chars ++ (owner ++ members)))),
        record {
          room = r;
          name = title.chars;
          rest = title.rest;
          owner = owner;
          members = members;
          live = ap (object w.rooms) e ∙ there;
          named = title.split;
          text = title.text;
          bytes = title.bytes;
          owned = user;
          users = users;
          written = refl;
        },
      )

  table-AreListed :
      (ps : List Pointer)
      → ((i : ℕ) (q : Pointer)
          → get_elem? ps i ≡ some q
          → (q ≡ null) ⊎ ((b : ℕ) × (r : Room) × (q ≡ addr b) × (object w.rooms (addr b) ≡ some r)))
      → (us : List ℕ) × AreListed w ps us
  table-AreListed [] slots = ([], refl)
  table-AreListed (p ∷ ps) slots = first (slots 0 p refl) (table-AreListed ps (λ i. slots (suc i)))
    where
      first :
          (p ≡ null) ⊎ ((b : ℕ) × (r : Room) × (p ≡ addr b) × (object w.rooms (addr b) ≡ some r))
          → ((us : List ℕ) × AreListed w ps us)
          → (us : List ℕ) × AreListed w (p ∷ ps) us
      first (inl e) (us, listed) = (us, inl (e, listed))
      first (inr (b, r, e, there)) (vs, listed) =
          let (us, room) = room-IsListed b r p e there in
          (us ++ vs, inr (us, vs, used_addr p b e, room, listed, refl))

  pub g_rooms-AreListed : (us : List ℕ) × AreListed w w.g_rooms us
  g_rooms-AreListed = table-AreListed w.g_rooms (λ i q at. room q (v.inv.table.listed i q at))
    where
      room :
          {i : ℕ} (q : Pointer)
          → (q ≡ null)
            ⊎ ((b : ℕ) × (r : Room) × (q ≡ addr b)
                × (object w.rooms (addr b) ≡ some r)
                × (r.id ≡ i))
          → (q ≡ null) ⊎ ((b : ℕ) × (r : Room) × (q ≡ addr b) × (object w.rooms (addr b) ≡ some r))
      room q (inl e) = inl e
      room q (inr (b, r, e, there, numbered)) = inr (b, r, e, there)

  pub handle_request_rooms_tag-Stays :
      (a : ℕ) (c : Client)
      → object w.clients (addr a) ≡ some c
      → Does Stays (handle_request_rooms_tag (addr a)) w
  handle_request_rooms_tag-Stays a c live =
      let (us, listed) = g_rooms-AreListed in
      reply-Stays (handle_request_rooms_tag (addr a)) w _ (handle_request_rooms_tag-Stable (addr a))
        v (handle_request_rooms_tag-lists w (addr a) c us live listed)
