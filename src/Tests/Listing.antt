-- ===== src/Tests/Listing.antt =====
-- The list of two rooms, with their members.
use lso_server.Base.{ℕ, zero, suc, ◌≡◌, refl, inl, inr, List, [], ◌++◌, pos, replicate}
use lso_server.Utils.RoundTrip.{int32_bytes}
use lso_server.Writer.Strings.{string_bytes}
use lso_server.Tags.{request_rooms_accepted_tag}
use lso_server.Message.Wire.{wire}
use lso_server.World.{null, addr, ◌>>◌, pure, codes}
use lso_server.Client.{transmit}
use lso_server.Messages.Listing.{IsUser, AreUsers, IsListed, AreListed}
use lso_server.Handlers.{handle_request_rooms_tag}
use lso_server.Handlers.Listing.{handle_request_rooms_tag-lists}
use lso_server.Tests.Data.{is_bytes-IsBytes, are_positive-NonZero, den}
use lso_server.Tests.Manor.{ann_upstairs, bob_upstairs, attic, manor}

-- The users in the slots of the two rooms.
ann-IsUser : IsUser manor (addr 0) (int32_bytes (pos 7) ++ string_bytes (codes "ann"))
ann-IsUser = record {
  client = ann_upstairs;
  name = codes "ann";
  rest = [];
  live = refl;
  named = refl;
  text = are_positive-NonZero (codes "ann") refl;
  bytes = is_bytes-IsBytes (codes "ann") refl;
  written = refl;
}

bob-IsUser : IsUser manor (addr 1) (int32_bytes (pos 8) ++ string_bytes (codes "bob"))
bob-IsUser = record {
  client = bob_upstairs;
  name = codes "bob";
  rest = [];
  live = refl;
  named = refl;
  text = are_positive-NonZero (codes "bob") refl;
  bytes = is_bytes-IsBytes (codes "bob") refl;
  written = refl;
}

nobody : (n : ℕ) → AreUsers manor (replicate n null) []
nobody zero = refl
nobody (suc n) = inl (refl, nobody n)

no_rooms : (n : ℕ) → AreListed manor (replicate n null) []
no_rooms zero = refl
no_rooms (suc n) = inl (refl, no_rooms n)

abbrev den_bytes : List ℕ
den_bytes =
    int32_bytes (pos 0)
    ++ (int32_bytes (pos 1)
        ++ (int32_bytes (pos 30)
            ++ (string_bytes (codes "den")
                ++ ((int32_bytes (pos 7) ++ string_bytes (codes "ann"))
                    ++ (int32_bytes (pos 7) ++ string_bytes (codes "ann"))))))

abbrev attic_bytes : List ℕ
attic_bytes =
    int32_bytes (pos 1)
    ++ (int32_bytes (pos 2)
        ++ (int32_bytes (pos 30)
            ++ (string_bytes (codes "attic")
                ++ ((int32_bytes (pos 7) ++ string_bytes (codes "ann"))
                    ++ ((int32_bytes (pos 7) ++ string_bytes (codes "ann"))
                        ++ (int32_bytes (pos 8) ++ string_bytes (codes "bob")))))))

den-IsListed : IsListed manor (addr 0) den_bytes
den-IsListed = record {
  room = den;
  name = codes "den";
  rest = [];
  owner = int32_bytes (pos 7) ++ string_bytes (codes "ann");
  members = int32_bytes (pos 7) ++ string_bytes (codes "ann");
  live = refl;
  named = refl;
  text = are_positive-NonZero (codes "den") refl;
  bytes = is_bytes-IsBytes (codes "den") refl;
  owned = ann-IsUser;
  users = inr (_, [], refl, ann-IsUser, nobody 29, refl);
  written = refl;
}

attic-IsListed : IsListed manor (addr 1) attic_bytes
attic-IsListed = record {
  room = attic;
  name = codes "attic";
  rest = [];
  owner = int32_bytes (pos 7) ++ string_bytes (codes "ann");
  members =
      (int32_bytes (pos 7) ++ string_bytes (codes "ann"))
      ++ (int32_bytes (pos 8) ++ string_bytes (codes "bob"));
  live = refl;
  named = refl;
  text = are_positive-NonZero (codes "attic") refl;
  bytes = is_bytes-IsBytes (codes "attic") refl;
  owned = ann-IsUser;
  users = inr (
    _,
    int32_bytes (pos 8) ++ string_bytes (codes "bob"),
    refl,
    ann-IsUser,
    inr (_, [], refl, bob-IsUser, nobody 28, refl),
    refl,
  );
  written = refl;
}

handle_request_rooms_tag-lists_example :
    handle_request_rooms_tag (addr 1) manor
    ≡ (transmit (record {
      sockfd = pos 5;
      bytes = wire request_rooms_accepted_tag (den_bytes ++ attic_bytes);
    })
          >> pure tt)
        manor
handle_request_rooms_tag-lists_example =
    handle_request_rooms_tag-lists manor (addr 1) bob_upstairs (den_bytes ++ attic_bytes) refl (
      inr (
        den_bytes,
        attic_bytes,
        refl,
        den-IsListed,
        inr (attic_bytes, [], refl, attic-IsListed, no_rooms 998, refl),
        refl,
      ))
