-- ===== src/Tests/SignIn.antt =====
-- Clients who sign up and in, in concrete states.
use lso_server.Base.{
  replicate, fault, ◌≤◌, ℕ, ◌≡◌, refl, inl, List, [], ◌∷◌, ◌++◌, some, pos, true, arith,
}
use lso_server.Memory.{c_text}
use lso_server.Memory.Laws.{init}
use lso_server.Utils.RoundTrip.{int32_bytes}
use lso_server.Reader.Spelled.{Spells}
use lso_server.Writer.Strings.{string_bytes}
use lso_server.Tags.{sign_in_accepted_tag, sign_in_rejected_tag}
use lso_server.Message.Wire.{wire}
use lso_server.World.{addr, Row, failed, World, ◌>>◌, pure, codes}
use lso_server.Client.{transmit}
use lso_server.Database.{atoi, skip_spaces, digits_value, select_query}
use lso_server.Handlers.{handle_sign_up_tag, handle_sign_in_tag}
use lso_server.Handlers.Accounts.{asked}
use lso_server.Handlers.Overflow.{handle_sign_up_tag-overflows}
use lso_server.Handlers.SignIn.{signed_in, handle_sign_in_tag-accepts, handle_sign_in_tag-rejects}
use lso_server.Tests.Data.{
  is_bytes-IsBytes, are_positive-NonZero, reading, reading-Remains, bob, town,
}

-- A name and a password, each with its terminator.
abbrev pub typed : List ℕ
typed = 0 ∷ 0 ∷ 0 ∷ 4 ∷ (codes "ann" ++ 0 ∷ (0 ∷ 0 ∷ 0 ∷ 3 ∷ (codes "pw" ++ 0 ∷ [])))

pub password : Spells (0 ∷ 0 ∷ 0 ∷ 3 ∷ (codes "pw" ++ 0 ∷ [])) (codes "pw") []
password = record {
  b0 = 0;
  b1 = 0;
  b2 = 0;
  b3 = 3;
  more = [];
  split = refl;
  size = refl;
  chars = is_bytes-IsBytes (codes "pw" ++ 0 ∷ []) refl;
  others = tt;
  text = are_positive-NonZero (codes "pw") refl;
}

pub name : Spells typed (codes "ann") (0 ∷ 0 ∷ 0 ∷ 3 ∷ (codes "pw" ++ 0 ∷ []))
name = record {
  b0 = 0;
  b1 = 0;
  b2 = 0;
  b3 = 4;
  more = [];
  split = refl;
  size = refl;
  chars = is_bytes-IsBytes (codes "ann" ++ 0 ∷ []) refl;
  others = is_bytes-IsBytes (0 ∷ 0 ∷ 0 ∷ 3 ∷ (codes "pw" ++ 0 ∷ [])) refl;
  text = are_positive-NonZero (codes "ann") refl;
}

-- What the database answers: the user 7, `ann`.
abbrev pub row : Row
row = record {
  id_text = init (codes "7") ++ some 0 ∷ [];
  username = init (codes "ann") ++ some 0 ∷ [];
}

handle_sign_in_tag-accepts_example :
    handle_sign_in_tag (addr 1) (reading typed) town
    ≡ (transmit (record {
      sockfd = pos 5;
      bytes = wire sign_in_accepted_tag (int32_bytes (pos 7) ++ string_bytes (codes "ann"));
    })
          >> pure tt)
        (signed_in town 1 bob (select_query (codes "ann") (codes "pw")) row (pos 7))
unfolding c_text atoi skip_spaces digits_value
handle_sign_in_tag-accepts_example =
    handle_sign_in_tag-accepts town 1 bob (reading typed) typed _ [] (codes "ann") (codes "pw")
      (reading-Remains typed refl) name password refl refl row [] (codes "7") (pos 7) (codes "ann")
      [] (omega arith) refl refl refl refl (are_positive-NonZero (codes "ann") refl)
      (is_bytes-IsBytes (codes "ann") refl)

-- A database that refuses every query.
abbrev gloomy : World
gloomy = record town {
  outside = record { connects = λ _. true; answers = λ _ _. failed; sends = λ _ _. true };
}

handle_sign_in_tag-rejects_example :
    handle_sign_in_tag (addr 1) (reading typed) gloomy
    ≡ (transmit (record { sockfd = pos 5; bytes = wire sign_in_rejected_tag [] }) >> pure tt)
        (asked gloomy (select_query (codes "ann") (codes "pw")))
handle_sign_in_tag-rejects_example =
    handle_sign_in_tag-rejects gloomy 1 bob (reading typed) typed _ [] (codes "ann") (codes "pw")
      (reading-Remains typed refl) name password refl refl (omega arith) (inl refl)

-- 110 times the letter a.
abbrev long_text : List ℕ
long_text = replicate 110 97

abbrev twice : List ℕ
twice = 0 ∷ 0 ∷ 0 ∷ 111 ∷ (long_text ++ 0 ∷ [])

long_password : Spells twice long_text []
long_password = record {
  b0 = 0;
  b1 = 0;
  b2 = 0;
  b3 = 111;
  more = [];
  split = refl;
  size = refl;
  chars = is_bytes-IsBytes (long_text ++ 0 ∷ []) refl;
  others = tt;
  text = are_positive-NonZero long_text refl;
}

long_username : Spells (twice ++ twice) long_text twice
long_username = record {
  b0 = 0;
  b1 = 0;
  b2 = 0;
  b3 = 111;
  more = [];
  split = refl;
  size = refl;
  chars = is_bytes-IsBytes (long_text ++ 0 ∷ []) refl;
  others = is_bytes-IsBytes twice refl;
  text = are_positive-NonZero long_text refl;
}

handle_sign_up_tag-overflows_example :
    (204 ≤ 220 → handle_sign_up_tag (addr 1) (reading (twice ++ twice)) town ≡ fault)
    × (184 ≤ 220 → handle_sign_in_tag (addr 1) (reading (twice ++ twice)) town ≡ fault)
handle_sign_up_tag-overflows_example =
    handle_sign_up_tag-overflows town (addr 1) (reading (twice ++ twice)) (twice ++ twice) twice []
      long_text long_text (reading-Remains (twice ++ twice) refl) long_username long_password
