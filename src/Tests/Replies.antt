-- ===== src/Tests/Replies.antt =====
-- Answers of the handlers in concrete states.
use lso_server.Base.{
  fault, ℕ, zero, suc, ◌<◌, ◌≡◌, ◌≢◌, refl, ap, sym, ◌∙◌, inl, inr, List, [], ◌∷◌, ◌++◌, some, pos,
  ok, arith, get_elem?, replicate,
}
use lso_server.Utils.RoundTrip.{int32_bytes}
use lso_server.Writer.Strings.{string_bytes}
use lso_server.Tags.{join_room_refused_tag, leave_room_tag, room_create_accepted_tag}
use lso_server.Message.Wire.{wire}
use lso_server.World.{Pointer, null, addr, Client, Room, World, object, ◌>>◌, pure, codes}
use lso_server.Client.{transmit}
use lso_server.ClientPool.Lookup.{client_pool_get_lem, Slots, IsFirst, is_sought}
use lso_server.Room.Leaving.{left}
use lso_server.Handlers.{
  handle_join_room_refused_tag, handle_join_room_requested_tag, handle_join_room_accepted_tag,
  handle_leave_room_tag, handle_create_room_tag,
}
use lso_server.Handlers.Admission.{IsWaiting, request, admitted_to, ask_then_accept_admits}
use lso_server.Handlers.Closing.{closed, handle_leave_room_tag-closes}
use lso_server.Handlers.Creation.{own_room_bytes, with_own_room, handle_create_room_tag-creates}
use lso_server.Handlers.Departure.{handle_leave_room_tag-leaves}
use lso_server.Handlers.Relay.{packets}
use lso_server.Handlers.Uninvited.{handle_join_room_accepted_tag-uninvited}
use lso_server.Handlers.Refusal.{handle_join_room_refused_tag-tells}
use lso_server.Invariant.Steps.{nowhere}
use lso_server.Tests.Data.{
  is_bytes-IsBytes, are_positive-NonZero, reading, reading-Remains, ann, bob, den, town, den-Slots,
}
use lso_server.Tests.Manor.{ann_upstairs, bob_upstairs, attic, attic-Slots, manor, manor-Inv}

-- The slots of ann and bob come first.
abbrev village : World
village = record town {
  pool = record { clients = addr 0 ∷ addr 1 ∷ replicate 8 null; size = pos 2 };
}

some_pointer : {p q : Pointer} → some p ≡ some q → q ≡ p
some_pointer e = cc

village-Slots : Slots village village.pool.clients
village-Slots zero q e = inr (ann, ap (object village.clients) (some_pointer e))
village-Slots (suc zero) q e = inr (bob, ap (object village.clients) (some_pointer e))
village-Slots (suc (suc i)) q e = inl (nowhere i 8 q e)

bob-IsFirst : IsFirst village (pos 8) village.pool.clients 2 (addr 1)
bob-IsFirst = inr (1, bob, omega arith, refl, refl, refl, others)
  where
    some_client : (c : Client) → some ann ≡ some c → is_sought (pos 8) c ≡ is_sought (pos 8) ann
    some_client c e = ap (is_sought (pos 8)) (same e)
      where
        same : some ann ≡ some c → c ≡ ann
        same e = cc

    others :
        (i : ℕ) (q : Pointer) (c : Client)
        → i < 1
        → get_elem? village.pool.clients i ≡ some q
        → object village.clients q ≡ some c
        → is_sought (pos 8) c ≡ is_sought (pos 8) ann
    others zero q c h e live =
        some_client c (sym (ap (object village.clients) (some_pointer e)) ∙ live)
    others (suc i) q c h e live = absurd (omega arith)

index : (m n : ℕ) → addr m ≡ addr n → m ≡ n
index m n e = cc

bob-IsWaiting : IsWaiting village 1 bob (codes "bob") [] 0 0 den 29
bob-IsWaiting = record {
  live = refl;
  alone = refl;
  named = refl;
  text = are_positive-NonZero (codes "bob") refl;
  bytes = is_bytes-IsBytes (codes "bob") refl;
  registered = refl;
  room = refl;
  slots = den-Slots;
  slot = refl;
  new = refl;
}

-- Bob asks ann for her room, and she lets him in.
ask_then_accept_admits_example :
    (handle_join_room_requested_tag (addr 1) (reading (0 ∷ 0 ∷ 0 ∷ 0 ∷ []))
        >> handle_join_room_accepted_tag (addr 0) (reading (0 ∷ 0 ∷ 0 ∷ 8 ∷ 0 ∷ 0 ∷ 0 ∷ 0 ∷ [])))
      village
    ≡ ok (
      tt,
      admitted_to
          (record village { sent = request ann bob (codes "bob") ∷ [] })
          1
          bob
          (codes "bob")
          0
          den
          29,
    )
ask_then_accept_admits_example =
    ask_then_accept_admits village 1 bob (codes "bob") [] 0 0 den 29 bob-IsWaiting ann
      (reading (0 ∷ 0 ∷ 0 ∷ 0 ∷ [])) (reading (0 ∷ 0 ∷ 0 ∷ 8 ∷ 0 ∷ 0 ∷ 0 ∷ 0 ∷ [])) 0 0 0 0 0 0 0 8
      0 0 0 0 [] [] 2 (reading-Remains (0 ∷ 0 ∷ 0 ∷ 0 ∷ []) refl) refl refl refl
      (reading-Remains (0 ∷ 0 ∷ 0 ∷ 8 ∷ 0 ∷ 0 ∷ 0 ∷ 0 ∷ []) refl) refl refl village-Slots refl
      (omega arith) (omega arith) bob-IsFirst

-- He lets himself in.
handle_join_room_accepted_tag-uninvited_example :
    (w : World) × (s : Room) × (d : Client) × (handle_join_room_accepted_tag
        (addr 1)
        (reading (0 ∷ 0 ∷ 0 ∷ 8 ∷ 0 ∷ 0 ∷ 0 ∷ 0 ∷ []))
        village
      ≡ ok (tt, w))
    × (object w.clients (addr 1) ≡ some d)
    × (d.room ≡ addr 0)
    × (object w.rooms (addr 0) ≡ some s)
    × (get_elem? s.clients 29 ≡ some (addr 1))
handle_join_room_accepted_tag-uninvited_example =
    handle_join_room_accepted_tag-uninvited village 1 bob (codes "bob") [] 0 0 den 29
      (reading (0 ∷ 0 ∷ 0 ∷ 8 ∷ 0 ∷ 0 ∷ 0 ∷ 0 ∷ [])) 0 0 0 8 0 0 0 0 [] 2 bob-IsWaiting
      (reading-Remains (0 ∷ 0 ∷ 0 ∷ 8 ∷ 0 ∷ 0 ∷ 0 ∷ 0 ∷ []) refl) refl refl village-Slots refl
      (omega arith) (omega arith) bob-IsFirst

-- She turns him away.
handle_join_room_refused_tag-tells_example :
    ((d : Client)
      → object village.clients (addr 1) ≡ some d
      → handle_join_room_refused_tag (addr 0) (reading (0 ∷ 0 ∷ 0 ∷ 8 ∷ [])) village
        ≡ (transmit (record { sockfd = d.sockfd; bytes = wire join_room_refused_tag [] })
              >> pure tt)
            village)
    × (addr 1 ≡ null
        → handle_join_room_refused_tag (addr 0) (reading (0 ∷ 0 ∷ 0 ∷ 8 ∷ [])) village ≡ fault)
handle_join_room_refused_tag-tells_example =
    handle_join_room_refused_tag-tells village (addr 0) (addr 1) ann (reading (0 ∷ 0 ∷ 0 ∷ 8 ∷ []))
      0 0 0 8 [] refl (reading-Remains (0 ∷ 0 ∷ 0 ∷ 8 ∷ []) refl)
      (client_pool_get_lem village (pos 8) 2 (addr 1) village-Slots refl (omega arith) (omega arith)
        bob-IsFirst)

-- Ann closes the attic.
handle_leave_room_tag-closes_example :
    (handle_leave_room_tag (addr 0) manor ≡ ok (tt, closed manor 0 1 attic))
    × ((i k : ℕ) (d : Client)
        → get_elem? (attic.clients ++ addr 0 ∷ []) i ≡ some (addr k)
        → object (closed manor 0 1 attic).clients (addr k) ≡ some d
        → d.room ≡ null)
handle_leave_room_tag-closes_example =
    handle_leave_room_tag-closes manor 0 1 ann_upstairs ann_upstairs attic manor-Inv refl refl refl
      attic-Slots refl refl

-- Bob leaves it.
handle_leave_room_tag-leaves_example :
    handle_leave_room_tag (addr 1) manor
    ≡ ok (
      tt,
      record (left manor 1 attic 1 1 bob_upstairs) {
        sent =
            packets
              (left manor 1 attic 1 1 bob_upstairs).clients
              (addr 0 ∷ null ∷ replicate 28 null)
              (wire leave_room_tag (int32_bytes (pos 8) ++ string_bytes (codes "bob")));
      },
    )
handle_leave_room_tag-leaves_example =
    handle_leave_room_tag-leaves manor 1 1 1 bob_upstairs ann_upstairs attic (codes "bob") []
      manor-Inv refl refl refl attic-Slots refl earlier refl refl refl
      (are_positive-NonZero (codes "bob") refl) (is_bytes-IsBytes (codes "bob") refl)
  where
    earlier : (k : ℕ) → k < 1 → get_elem? attic.clients k ≢ some (addr 1)
    earlier zero h e = absurd (omega (arith, index 1 0 (some_pointer e)))
    earlier (suc k) h e = absurd (omega arith)

-- Bob makes a room.
abbrev hut : List ℕ
hut = 0 ∷ 0 ∷ 0 ∷ 4 ∷ (codes "hut" ++ 0 ∷ [])

handle_create_room_tag-creates_example :
    handle_create_room_tag (addr 1) (reading hut) manor
    ≡ (transmit (record {
      sockfd = pos 5;
      bytes =
          wire room_create_accepted_tag
            (own_room_bytes manor (codes "hut") bob_upstairs (codes "bob"));
    })
          >> pure tt)
        (with_own_room manor (codes "hut") 1 bob_upstairs)
handle_create_room_tag-creates_example =
    handle_create_room_tag-creates manor 1 bob_upstairs (codes "bob") [] (codes "hut") refl refl
      (are_positive-NonZero (codes "bob") refl) (is_bytes-IsBytes (codes "bob") refl)
      (are_positive-NonZero (codes "hut") refl) (is_bytes-IsBytes (codes "hut") refl) (omega arith)
      (omega arith) (reading hut) 0 0 0 4 [] [] (reading-Remains hut refl) refl
      (is_bytes-IsBytes (codes "hut" ++ 0 ∷ []) refl) tt
