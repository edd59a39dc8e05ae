-- ===== src/Soundness/Accounts.antt =====
-- A client makes a room, signs up or signs in (server/client.c), in a sound state.
use lso_server.Base.{
  ℕ, ◌<◌, ◌≡◌, ◌≢◌, refl, ap, sym, subst, ◌∙◌, ◌⊎◌, inl, inr, List, [], ◌∷◌, some, arith, length,
  set, get_elem?, replicate, length-replicate, Option,
}
use lso_server.Memory.Laws.{NonZero}
use lso_server.Reader.{Reader}
use lso_server.Reader.Remains.{Remains}
use lso_server.Reader.Spelled.{Spells}
use lso_server.Writer.Strings.{IsBytes}
use lso_server.World.{
  Pointer, null, addr, string, Client, Row, Reply, failed, unstored, rows, World, Packet, Cmd,
  object, put_object, ◌>>◌, pure,
}
use lso_server.World.Heap.{object-Put, Put}
use lso_server.Client.{transmit}
use lso_server.Client.Posted.{posted}
use lso_server.Room.{max_rooms, max_room_name, max_clients_per_room}
use lso_server.Database.{insert_query, select_query}
use lso_server.Invariant.Slots.{set-slot-cases}
use lso_server.Invariant.Steps.{nowhere}
use lso_server.Invariant.Keeps.{Stable}
use lso_server.Invariant.Handlers.{
  handle_create_room_tag-Stable, handle_sign_up_tag-Stable, handle_sign_in_tag-Stable,
}
use lso_server.Handlers.{handle_create_room_tag, handle_sign_up_tag, handle_sign_in_tag}
use lso_server.Handlers.Accounts.{asked}
use lso_server.Handlers.Creation.{own_room, with_own_room, handle_create_room_tag-creates}
use lso_server.Handlers.SignIn.{
  signed_in, handle_sign_up_tag-answers, handle_sign_in_tag-accepts, handle_sign_in_tag-rejects,
}
use lso_server.Soundness.{IsSigned, IsHouse, IsRow, HasRow, Housed, Sound}
use lso_server.Soundness.Heaps.{Housed-put_user}
use lso_server.Soundness.Making.{Housed-make}
use lso_server.Soundness.Guests.{Hotel, hotel, Stays, Opens, Does}
use lso_server.Soundness.Visits.{Opens-room}
use lso_server.Soundness.Outcomes.{Older, Stable-Sound, signed_name, replied}

-- A handler that ends in a reply, in another state.
reply-Does :
    (C : Hotel → Hotel → Type 0) (m : Cmd (Unit {0})) (w w' : World) (p : Packet)
    → Stable m
    → Sound w
    → m w ≡ (transmit p >> pure tt) w'
    → Housed w'.clients w'.rooms
    → Older w w'
    → C (hotel w) (hotel w')
    → Does C m w
reply-Does C m w w' p stable v runs housed older change =
    let ends = runs ∙ replied w' p in
    (
      record w' { sent = posted w'.outside w'.sent (p ∷ []) },
      ends,
      Stable-Sound m w _ stable v ends housed older,
      change,
    )

put-Older :
    (w w' : World) (a : ℕ) (c c' : Client)
    → object w.clients (addr a) ≡ some c
    → w'.clients ≡ put_object w.clients (addr a) (some c')
    → Older w w'
put-Older w w' a c c' live same k x e = back (
    object-Put w.clients a k c (some c') x live
      (ap (λ (heap : List (Option Client)). object heap (addr k)) (sym same) ∙ e))
  where
    back : Put w.clients a k (some c') x → (y : Client) × (object w.clients (addr k) ≡ some y)
    back (inl (h, f)) = (c, ap (λ (n : ℕ). object w.clients (addr n)) (sym h) ∙ live)
    back (inr (ne, f)) = (x, f)

-- The slots of a new room.
Taken : ℕ → ℕ → Pointer → Type 0
Taken a j q =
    ((j ≡ 29) × (q ≡ addr a))
    ⊎ ((j ≢ 29) × (get_elem? (replicate max_clients_per_room null) j ≡ some q))

own_slot :
    (a j : ℕ) (q : Pointer)
    → get_elem? (set (replicate max_clients_per_room null) 29 (addr a)) j ≡ some q
    → Taken a j q
unfolding Taken
own_slot a j q e =
    set-slot-cases (replicate max_clients_per_room null) 29 j (addr a) q
      (omega (arith, length-replicate max_clients_per_room null)) e

own_only : (a j : ℕ) (q : Pointer) → Taken a j q → (q ≡ null) ⊎ (q ≡ addr a)
unfolding Taken
own_only a j q (inl (h, f)) = inr f
own_only a j q (inr (ne, f)) = inl (nowhere j max_clients_per_room q f)

own_seat : (a j d : ℕ) → Taken a j (addr d) → j ≡ 29
unfolding Taken
own_seat a j d (inl (h, f)) = h
own_seat a j d (inr (ne, f)) = clash (nowhere j max_clients_per_room (addr d) f)
  where
    clash : addr d ≡ null → j ≡ 29
    clash e = cc

own_room-IsHouse :
    (w : World) (ds : List ℕ) (a : ℕ) → NonZero ds → IsBytes ds → IsHouse (own_room w ds a)
own_room-IsHouse w ds a title bytes = record {
  owner = a;
  seat = 29;
  owned = refl;
  seated = refl;
  once = λ i j d e f.
      own_seat a i d (own_slot a i (addr d) e) ∙ sym (own_seat a j d (own_slot a j (addr d) f));
  titled = record { chars = ds; rest = _; split = refl; text = title; bytes = bytes };
}

module _ (w : World) (v : Sound w) (a : ℕ) (c : Client) (live : object w.clients (addr a) ≡ some c)
    (reader : Reader) (xs : List ℕ) (rem : Remains reader xs) where
  pub handle_create_room_tag-Opens :
      (name ys : List ℕ)
      → Spells xs name ys
      → IsBytes name
      → length name < max_room_name
      → w.counter_room < max_rooms
      → c.room ≡ null
      → IsSigned c.user.name
      → Does (Opens a) (handle_create_room_tag (addr a) reader) w
  handle_create_room_tag-Opens name ys s bytes short place alone signed =
      let (cs, rest, named, text, chars) = signed_name c.user.name signed in
      reply-Does (Opens a) (handle_create_room_tag (addr a) reader) w (with_own_room w name a c) _
        (handle_create_room_tag-Stable (addr a) reader) v
        (handle_create_room_tag-creates w a c cs rest name live named text chars s.text bytes short
          (omega (arith, v.inv.table.size)) reader s.b0 s.b1 s.b2 s.b3 s.more ys
          (subst (Remains reader) s.split rem) s.size s.chars s.others)
        (Housed-make w.clients w.rooms v.housed a 29 c (own_room w name a) live alone signed
          (own_room-IsHouse w name a s.text bytes) refl
          (λ j q e. own_only a j q (own_slot a j q e)))
        (put-Older w (with_own_room w name a c) a c _ live refl) (Opens-room w name a)

  module _ (user pass ys zs : List ℕ) (name : Spells xs user ys)
      (password : Spells ys pass zs) where
    pub handle_sign_up_tag-Stays :
        length (insert_query user pass) < 256 → Does Stays (handle_sign_up_tag (addr a) reader) w
    handle_sign_up_tag-Stays fits =
        reply-Does Stays (handle_sign_up_tag (addr a) reader) w (asked w (insert_query user pass)) _
          (handle_sign_up_tag-Stable (addr a) reader) v
          (handle_sign_up_tag-answers w a c reader xs ys zs user pass rem name password live
            (v.served.connects w.queries) fits)
          v.housed (λ k x e. (x, e)) (λ k. refl)

    -- The database finds nobody.
    turned_down :
        length (select_query user pass) < 256
        → (w.outside.answers w.queries (select_query user pass) ≡ failed)
          ⊎ (w.outside.answers w.queries (select_query user pass) ≡ rows [])
        → Does Stays (handle_sign_in_tag (addr a) reader) w
    turned_down fits answer =
        reply-Does Stays (handle_sign_in_tag (addr a) reader) w (asked w (select_query user pass)) _
          (handle_sign_in_tag-Stable (addr a) reader) v
          (handle_sign_in_tag-rejects w a c reader xs ys zs user pass rem name password live
            (v.served.connects w.queries) fits answer)
          v.housed (λ k x e. (x, e)) (λ k. refl)

    let_in :
        (r : Row) (rs : List Row)
        → length (select_query user pass) < 256
        → w.outside.answers w.queries (select_query user pass) ≡ rows (r ∷ rs)
        → IsRow r
        → Does Stays (handle_sign_in_tag (addr a) reader) w
    let_in r rs fits answer row =
        let t = row.username in
        let w' = signed_in w a c (select_query user pass) r row.id in
        let c' : Client = record c { user = record { id = row.id; name = string r.username } } in
        reply-Does Stays (handle_sign_in_tag (addr a) reader) w w' _
          (handle_sign_in_tag-Stable (addr a) reader) v
          (handle_sign_in_tag-accepts w a c reader xs ys zs user pass rem name password live
            (v.served.connects w.queries) r rs row.digits row.id t.chars t.rest fits answer
            row.spelled row.number t.split t.text t.bytes)
          (Housed-put_user w.clients w.rooms v.housed a c live c' refl t)
          (put-Older w w' a c c' live refl) (λ k. refl)

    pub handle_sign_in_tag-Stays :
        length (select_query user pass) < 256 → Does Stays (handle_sign_in_tag (addr a) reader) w
    handle_sign_in_tag-Stays fits =
        cases (w.outside.answers w.queries (select_query user pass)) refl
          (v.served.answers w.queries user pass)
      where
        cases :
            (reply : Reply)
            → w.outside.answers w.queries (select_query user pass) ≡ reply
            → HasRow reply
            → Does Stays (handle_sign_in_tag (addr a) reader) w
        cases failed e h = turned_down fits (inl e)
        cases unstored e h = absurd h
        cases (rows []) e h = turned_down fits (inr e)
        cases (rows (r ∷ rs)) e h = let_in r rs fits e (h r rs refl)
