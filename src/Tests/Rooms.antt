-- ===== src/Tests/Rooms.antt =====
-- Clients who join a room, in concrete states.
use lso_server.Memory.Laws.{init}
use lso_server.Base.{
  ℕ, zero, suc, ◌<◌, ◌≡◌, ◌≢◌, refl, ap, sym, subst, inl, inr, [], ◌∷◌, ◌++◌, some, pos, ok, fault,
  true, arith, get_elem?, replicate, ◌-ℤ◌,
}
use lso_server.World.{Pointer, null, addr, string, codes, Client, Room, World, object, ◌>>◌}
use lso_server.World.Laws.{Ends}
use lso_server.ClientPool.Lookup.{Slots}
use lso_server.Room.{room_add_client, room_remove_client}
use lso_server.Room.Joining.{room_add_client-twice}
use lso_server.Room.Leaving.{left, room_remove_client-leaves}
use lso_server.Room.RoundTrip.{room_remove_client-room_add_client}
use lso_server.Room.Creation.{room_name, with_room, room_create-made}
use lso_server.Room.Collision.{join_both, join_both-overwrites}
use lso_server.Invariant.{Inv, occupied}
use lso_server.Invariant.Keeps.{Kept, Kept-self}
use lso_server.Invariant.Registry.{made, room_create-Stable, room_remove_client-Stable}
use lso_server.Invariant.Steps.{nowhere}
use lso_server.Tests.Data.{are_positive-NonZero, two, two-Inv, newcomer, ann, bob, den, town}
use lso_server.Tests.Manor.{ann_upstairs, bob_upstairs, attic, attic-Slots, manor, manor-Inv}

-- A second connection of the user of `ann`, in no room.
abbrev twin : Client
twin = record ann { room = null; uid = 2 }

abbrev twins : World
twins = record town { clients = some ann ∷ some bob ∷ some twin ∷ [] }

twins-Slots : Slots twins den.clients
twins-Slots zero q e = inr (ann, ap (object twins.clients) (sym (some_eq e)))
  where
    some_eq : some (addr 0) ≡ some q → addr 0 ≡ q
    some_eq e = cc
twins-Slots (suc i) q e = inl (nowhere i 29 q e)

room_add_client-twice_example : room_add_client (addr 0) (addr 2) twins ≡ fault
room_add_client-twice_example =
    room_add_client-twice twins (addr 2) twin refl (addr 0) den refl twins-Slots 29 refl refl refl

index : (m n : ℕ) → addr m ≡ addr n → m ≡ n
index m n e = cc

some_pointer : {p q : Pointer} → some p ≡ some q → q ≡ p
some_pointer e = cc

-- Bob has left the attic of the manor.
abbrev quiet : World
quiet = left manor 1 attic 1 1 bob_upstairs

abbrev quiet_attic : Room
quiet_attic = record attic { clients = addr 0 ∷ replicate 29 null; clients_count = pos 1 }

quiet-Inv : Inv quiet
quiet-Inv =
    let kept : Kept manor quiet =
      subst (Ends (λ _. Kept manor))
        (room_remove_client-leaves manor 1 attic 1 1 bob_upstairs manor-Inv refl attic-Slots refl
          refl earlier)
        ((room_remove_client-Stable (addr 1) (addr 1)).runs manor manor
          (Kept-self manor manor-Inv)) in
    kept.inv
  where
    earlier : (k : ℕ) → k < 1 → get_elem? attic.clients k ≢ some (addr 1)
    earlier zero h e = absurd (omega (arith, index 1 0 (some_pointer e)))
    earlier (suc k) h e = absurd (omega arith)

quiet_attic-Slots : Slots quiet quiet_attic.clients
quiet_attic-Slots zero q e = inr (ann_upstairs, ap (object quiet.clients) (some_pointer e))
quiet_attic-Slots (suc i) q e = inl (nowhere i 29 q e)

room_remove_client-room_add_client_example :
    (room_add_client (addr 1) (addr 1) >> room_remove_client (addr 1) (addr 1)) quiet
    ≡ ok (true, quiet)
unfolding ◌-ℤ◌
room_remove_client-room_add_client_example =
    room_remove_client-room_add_client quiet 1 quiet_attic 29 1 bob quiet-Inv refl refl refl
      quiet_attic-Slots refl refl

-- Two clients, and a room with nobody in it.
abbrev vacant : Room
vacant = made two (room_name (codes "den"))

abbrev lobby : World
lobby = with_room two vacant

lobby-Inv : Inv lobby
lobby-Inv =
    let kept : Kept two lobby =
      subst (Ends (λ _. Kept two))
        (room_create-made two (codes "den") [] (are_positive-NonZero (codes "den") refl)
          (omega arith) (omega arith))
        ((room_create-Stable (string (init (codes "den") ++ some 0 ∷ []))).runs two two
          (Kept-self two two-Inv)) in
    kept.inv

-- Both join it at the same time.
join_both-overwrites_example :
    (w : World) × (s : Room) × (x : Client) × (join_both (addr 0) (addr 0) (addr 1) lobby
      ≡ ok (tt, w))
    × (object w.rooms (addr 0) ≡ some s)
    × (object w.clients (addr 0) ≡ some x)
    × (x.room ≡ addr 0)
    × ((j : ℕ) → get_elem? s.clients j ≢ some (addr 0))
    × (s.clients_count ≡ pos (suc (occupied s.clients)))
join_both-overwrites_example =
    join_both-overwrites lobby 0 29 0 1 vacant (newcomer 4 0) (newcomer 5 1) lobby-Inv refl
      (λ i q e. inl (nowhere i 30 q e)) refl refl refl refl refl λ e. absurd (omega arith)
