-- ===== src/Soundness/Admitting.antt =====
-- A client that asked to join a room is accepted (server/client.c), in a sound state.
use lso_server.Base.{ℕ, ◌≡◌, refl, ap, sym, ◌∙◌, inl, inr, List, ◌++◌, some, ℤ, pos, ok, get_elem?}
use lso_server.Reader.{Reader, skip, lso_reader_read_int32}
use lso_server.Reader.Remains.{Remains, lso_reader_read_int32-Remains}
use lso_server.Tags.{join_room_notify_accepted_tag}
use lso_server.World.{Pointer, null, addr, User, Client, World, object}
use lso_server.World.Laws.{get_client-live}
use lso_server.ClientPool.{client_pool_get}
use lso_server.Room.{room_get}
use lso_server.Messages.{create_join_room_notify_accepted_message}
use lso_server.Invariant.Handlers.{handle_join_room_accepted_tag-Stable}
use lso_server.Handlers.{handle_join_room_accepted_tag}
use lso_server.Handlers.Replies.{client_message-Carries}
use lso_server.Client.Posted.{posted}
use lso_server.Message.Wire.{wire}
use lso_server.Utils.RoundTrip.{int32_bytes}
use lso_server.Writer.Strings.{string_bytes}
use lso_server.Handlers.Relay.{packets, room_send_message-packets}
use lso_server.Soundness.{IsSigned, Sound, Stands}
use lso_server.Soundness.Guests.{Stays, Joins, Does, same_run-Does}
use lso_server.Soundness.Entering.{Entered, enters, has_user-new}
use lso_server.Soundness.Outcomes.{Stable-Sound, Stable-Stays, signed_name}
use lso_server.Soundness.Polite.{Counts, HasPlace}
use lso_server.Soundness.Asking.{read_number}
use lso_server.Soundness.Searching.{Search, searched}

module _ (w : World) (v : Sound w) where
  module _ (client : Pointer) (reader : Reader) (xs ys zs : List ℕ) (z : ℤ) (n : ℕ)
      (rem : Remains reader xs) (who : Counts xs z ys) (which : Counts ys (pos n) zs)
      (place : HasPlace w n z) where
    Served : Type 0
    Served = Does Joins (handle_join_room_accepted_tag client reader) w

    first : lso_reader_read_int32 reader ≡ ok (z, skip reader 4)
    first =
        (lso_reader_read_int32-Remains reader who.b0 who.b1 who.b2 who.b3 ys
          (read_number reader xs z ys who rem)).0
        ∙ ap (λ (t : ℤ). ok (t, skip reader 4)) who.value

    second : lso_reader_read_int32 (skip reader 4) ≡ ok (pos n, skip (skip reader 4) 4)
    second =
        let rem' =
          (lso_reader_read_int32-Remains reader who.b0 who.b1 who.b2 who.b3 ys
            (read_number reader xs z ys who rem)).1 in
        (lso_reader_read_int32-Remains (skip reader 4) which.b0 which.b1 which.b2 which.b3 zs
          (read_number (skip reader 4) ys (pos n) zs which rem')).0
        ∙ ap (λ (t : ℤ). ok (t, skip (skip reader 4) 4)) which.value

    unmoved : handle_join_room_accepted_tag client reader w ≡ ok (tt, w) → Served
    unfolding Served
    unmoved runs =
        same_run-Does Stays Joins (handle_join_room_accepted_tag client reader)
          (handle_join_room_accepted_tag client reader) w refl (λ h h'. inl)
          (Stable-Stays (handle_join_room_accepted_tag client reader) w w.sent
            (handle_join_room_accepted_tag-Stable client reader) v runs)

    missed : client_pool_get z w ≡ ok (null, w) → Served
    unfolding Served handle_join_room_accepted_tag
    missed found = unmoved (rw (first, second, found) refl)

    inside :
        (k b : ℕ) (x : Client)
        → client_pool_get z w ≡ ok (addr k, w)
        → object w.clients (addr k) ≡ some x
        → x.room ≡ addr b
        → Served
    unfolding Served handle_join_room_accepted_tag
    inside k b x found live room =
        unmoved (rw (first, second, found, get_client-live (addr k) w x live, room) refl)

    admitted :
        (k : ℕ) (x : Client)
        → client_pool_get z w ≡ ok (addr k, w)
        → object w.clients (addr k) ≡ some x
        → x.room ≡ null
        → IsSigned x.user.name
        → Entered w v k place.place x
        → Served
    unfolding Served handle_join_room_accepted_tag room_get create_join_room_notify_accepted_message
    admitted k x found live alone signed e =
        let (cs, rest, named, text, bytes) = signed_name x.user.name signed in
        let ((m, _), made, (same, carries)) =
          client_message-Carries e.after join_room_notify_accepted_tag (addr k) e.client cs rest
            e.live (ap (λ (u : User). u.name) e.same ∙ named) text bytes in
        let registered : get_elem? w.g_rooms n ≡ some (addr place.place) =
          ap (get_elem? w.g_rooms) (sym place.numbered)
          ∙ v.inv.table.registered place.place place.room place.live in
        let w' : World = record e.after {
          sent = posted e.after.outside e.after.sent (
              packets e.after.clients e.room.clients (
                wire join_room_notify_accepted_tag
                  (int32_bytes e.client.user.id ++ string_bytes cs)));
        } in
        let runs : handle_join_room_accepted_tag client reader w ≡ ok (tt, w') =
          rw
            (
              first,
              second,
              found,
              get_client-live (addr k) w x live,
              alone,
              registered,
              e.runs,
              made,
              same,
            )
            (room_send_message-packets e.after place.place e.room m join_room_notify_accepted_tag _
              e.there e.slots carries) in
        (
          w',
          runs,
          Stable-Sound (handle_join_room_accepted_tag client reader) w w'
              (handle_join_room_accepted_tag-Stable client reader) v runs e.housed e.older,
          e.change w' refl,
        )

    pub handle_join_room_accepted_tag-Joins :
        Does Joins (handle_join_room_accepted_tag client reader) w
    unfolding Served
    handle_join_room_accepted_tag-Joins = cases (searched w v z)
      where
        cases : Search w v z → Served
        cases (inl found) = missed found
        cases (inr (k, found, f)) = stand (v.housed.stands k f.client f.live)
          where
            stand : Stands w.rooms k f.client → Served
            stand (inr (b, r, i, room, there, at)) = inside k b f.client found f.live room
            stand (inl alone) = admitted k f.client found f.live alone f.signed (
                enters w v k place.place f.client place.room f.live alone f.signed place.live (
                  has_user-new w f.client place.room.clients
                    (λ j d y at live same. place.new j d y at live (same ∙ f.known))))
