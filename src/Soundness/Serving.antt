-- ===== src/Soundness/Serving.antt =====
-- One message of one client (server/client.c, `on_message_received` and one round of
-- `client_handler`), in a sound state.
use lso_server.Base.{
  true, false, ◌≢◌, sym, eqb_ℤ, eqb_ℤ_refl, ℕ, ◌≡◌, inl, inr, refl, ap, ◌∙◌, List, ◌∷◌, ◌++◌, some,
  ℤ, signed, length,
}
use lso_server.Memory.{Block}
use lso_server.Memory.Laws.{init}
use lso_server.Buffer.Holds.{byte_buffer_create_from_bytes_lem}
use lso_server.Utils.Decode.{pattern16}
use lso_server.Writer.Strings.{IsBytes}
use lso_server.Message.{Message, message_to_reader}
use lso_server.Message.Received.{Delivers, message_create_from_byte_buffer-Delivers}
use lso_server.World.{addr, Client, World, Cmd, object}
use lso_server.Handlers.{
  on_message_received, handle_request_rooms_tag, handle_join_room_requested_tag,
  handle_join_room_accepted_tag, handle_join_room_refused_tag, handle_message_received_tag,
  handle_leave_room_tag, handle_create_room_tag, handle_sign_up_tag, handle_sign_in_tag,
}
use lso_server.Handlers.Replies.{on_message_received-ignores, is_handled}
use lso_server.Server.{receive}
use lso_server.Soundness.{Sound}
use lso_server.Soundness.Polite.{
  IsPolite, lists, asks, accepts, refuses, says, leaves, makes, signs_up, signs_in, strays,
}
use lso_server.Soundness.Listing.{handle_request_rooms_tag-Stays}
use lso_server.Soundness.Asking.{handle_join_room_requested_tag-Stays}
use lso_server.Soundness.Searching.{handle_join_room_refused_tag-Stays}
use lso_server.Soundness.Admitting.{handle_join_room_accepted_tag-Joins}
use lso_server.Soundness.Talking.{handle_message_received_tag-Stays}
use lso_server.Soundness.Parting.{handle_leave_room_tag-Leaves}
use lso_server.Soundness.Guests.{
  Hotel, Stays, Opens, Joins, Leaves, Change, stays, opens, enters, parts, closes, Does,
  same_run-Does,
}
use lso_server.Tags.{join_room_accepted_tag, leave_room_requested_tag, room_create_requested_tag}
use lso_server.Soundness.Accounts.{
  handle_create_room_tag-Opens, handle_sign_up_tag-Stays, handle_sign_in_tag-Stays,
}

clash : true ≡ false → ⊥
clash e = cc

-- The tag is not that of a request to make a room.
elsewise :
    (tag t : ℤ)
    → eqb_ℤ t room_create_requested_tag ≡ false
    → tag ≡ t
    → tag ≢ room_create_requested_tag
elsewise tag t h e f = clash (
    sym (eqb_ℤ_refl room_create_requested_tag)
    ∙ ap (λ (z : ℤ). eqb_ℤ z room_create_requested_tag) (sym f ∙ e)
    ∙ h)

unhandled : (tag : ℤ) → is_handled tag ≡ false → tag ≢ room_create_requested_tag
unhandled tag h f = clash (ap is_handled (sym f) ∙ h)

module _ (w : World) (v : Sound w) (a : ℕ) (c : Client)
    (live : object w.clients (addr a) ≡ some c) where
  DoesChange : Message → ℤ → Type 0
  DoesChange m tag = Does (Change a tag) (on_message_received (addr a) m) w

  -- The handler of the tag.
  by :
      (C : Hotel → Hotel → Type 0) (m : Message) (tag : ℤ) (n : Cmd (Unit {0}))
      → on_message_received (addr a) m w ≡ n w
      → ((h h' : Hotel) → C h h' → Change a tag h h')
      → Does C n w
      → DoesChange m tag
  unfolding DoesChange
  by C m tag n e weaker done =
      same_run-Does C (Change a tag) (on_message_received (addr a) m) n w e weaker done

  joined :
      (tag : ℤ) → tag ≡ join_room_accepted_tag → (h h' : Hotel) → Joins h h' → Change a tag h h'
  joined tag e h h' (inl same) = stays (elsewise tag join_room_accepted_tag refl e) same
  joined tag e h h' (inr change) = enters e change

  left :
      (tag : ℤ)
      → tag ≡ leave_room_requested_tag
      → (h h' : Hotel) → Leaves a h h'
      → Change a tag h h'
  left tag e h h' (inl same) = stays (elsewise tag leave_room_requested_tag refl e) same
  left tag e h h' (inr (inl change)) = parts e change
  left tag e h h' (inr (inr change)) = closes e change

  on_message_received-Change :
      (m : Message) (tag : ℤ) (bs : List ℕ)
      → Delivers m tag bs
      → IsPolite w c tag bs
      → DoesChange m tag
  unfolding on_message_received DoesChange
  on_message_received-Change m tag bs d (lists e) =
      by Stays m tag (handle_request_rooms_tag (addr a)) (rw (d.tagged, e) refl)
        (λ h h'. stays (elsewise tag _ refl e)) (handle_request_rooms_tag-Stays w v a c live)
  on_message_received-Change m tag bs d (asks n ys e number h known) =
      by Stays m tag (handle_join_room_requested_tag (addr a) (message_to_reader m))
        (rw (d.tagged, e) refl) (λ h h'. stays (elsewise tag _ refl e))
        (handle_join_room_requested_tag-Stays w v a c _ bs ys n live known d.remains number h)
  on_message_received-Change m tag bs d (accepts z n ys zs e who which place) =
      by Joins m tag (handle_join_room_accepted_tag (addr a) (message_to_reader m))
        (rw (d.tagged, e) refl) (joined tag e)
        (handle_join_room_accepted_tag-Joins w v (addr a) _ bs ys zs z n d.remains who which place)
  on_message_received-Change m tag bs d (refuses z k ys e who found) =
      by Stays m tag (handle_join_room_refused_tag (addr a) (message_to_reader m))
        (rw (d.tagged, e) refl) (λ h h'. stays (elsewise tag _ refl e))
        (handle_join_room_refused_tag-Stays w v a k c _ bs ys z live d.remains who found)
  on_message_received-Change m tag bs d (says cs ys e h) =
      by Stays m tag (handle_message_received_tag (addr a) (message_to_reader m))
        (rw (d.tagged, e) refl) (λ h h'. stays (elsewise tag _ refl e))
        (handle_message_received_tag-Stays w v a c live _ bs cs ys d.remains h)
  on_message_received-Change m tag bs d (leaves e) =
      let (w', runs, sound, change, out) = handle_leave_room_tag-Leaves w v a c live in
      by (Leaves a) m tag (handle_leave_room_tag (addr a)) (rw (d.tagged, e) refl) (left tag e)
        (w', runs, sound, change)
  on_message_received-Change m tag bs d (makes name ys e s bytes short place alone known) =
      by (Opens a) m tag (handle_create_room_tag (addr a) (message_to_reader m))
        (rw (d.tagged, e) refl) (λ h h'. opens e)
        (handle_create_room_tag-Opens w v a c live _ bs d.remains name ys s bytes short place alone
          known)
  on_message_received-Change m tag bs d (signs_up user pass ys zs e name password fits) =
      by Stays m tag (handle_sign_up_tag (addr a) (message_to_reader m)) (rw (d.tagged, e) refl)
        (λ h h'. stays (elsewise tag _ refl e))
        (handle_sign_up_tag-Stays w v a c live _ bs d.remains user pass ys zs name password fits)
  on_message_received-Change m tag bs d (signs_in user pass ys zs e name password fits) =
      by Stays m tag (handle_sign_in_tag (addr a) (message_to_reader m)) (rw (d.tagged, e) refl)
        (λ h h'. stays (elsewise tag _ refl e))
        (handle_sign_in_tag-Stays w v a c live _ bs d.remains user pass ys zs name password fits)
  on_message_received-Change m tag bs d (strays h) = (
    w,
    on_message_received-ignores w (addr a) m (ap is_handled d.tagged ∙ h),
    v,
    stays (unhandled tag h) (λ k. refl),
  )

  -- In a sound state a polite message, in a read of a live client, whatever stands behind it in
  -- the buffer, is handled without undefined behaviour, leaves a sound state and does to the
  -- rooms, seen as bags of guests with an owner, what its tag allows: a request to make a room
  -- adds one, with the sender as owner and only guest; an acceptance may add one guest, who is
  -- new, to a room that is not full; a message to leave may take the sender, if it is not the
  -- owner, out of a room, or remove a room that the sender is in; with any other tag nothing
  -- changes. A message is polite if its tag has no handler, or if it meets what its handler does
  -- not check.
  pub receive-Does :
      (b0 b1 : ℕ) (bs : List ℕ) (rest : Block)
      → IsBytes (b0 ∷ b1 ∷ bs)
      → IsPolite w c (signed 16 (pattern16 b0 b1)) bs
      → Does
          (Change a (signed 16 (pattern16 b0 b1)))
          (receive (addr a) (init (b0 ∷ b1 ∷ bs) ++ rest) (length (b0 ∷ b1 ∷ bs)))
          w
  unfolding receive DoesChange
  receive-Does b0 b1 bs rest bytes polite =
      let (m, made, d) = message_create_from_byte_buffer-Delivers b0 b1 bs bytes in
      let tag = signed 16 (pattern16 b0 b1) in
      same_run-Does (Change a tag) (Change a tag)
        (receive (addr a) (init (b0 ∷ b1 ∷ bs) ++ rest) (length (b0 ∷ b1 ∷ bs)))
        (on_message_received (addr a) m) w
        (rw (byte_buffer_create_from_bytes_lem b0 (b1 ∷ bs) rest, made) refl) (λ h h' e. e)
        (on_message_received-Change m tag bs d polite)
