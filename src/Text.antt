-- ===== src/Text.antt =====
-- What `printf` makes of `%d`: the decimal digits of a number.
use lso_server.Base.{
  ℕ, zero, suc, ◌+◌, ◌/◌, ◌%◌, List, [], ◌∷◌, ◌++◌, ℤ, pos, negsuc, ltb, if◌then◌else◌,
}

-- One digit for each unit of fuel, at most.
unfoldable pub decimal_digits : (fuel n : ℕ) → List ℕ
decimal_digits zero n = []
decimal_digits (suc fuel) n =
    let rest = decimal_digits fuel (n / 10) in
    if ltb n 10 then (b'0' + n) ∷ [] else rest ++ (b'0' + n % 10) ∷ []

-- A number has no more digits than its successor has units.
unfoldable pub decimal : ℕ → List ℕ
decimal n = decimal_digits (suc n) n

unfoldable pub decimal_int : ℤ → List ℕ
unfolding decimal
decimal_int (pos n) = decimal n
decimal_int (negsuc n) = b'-' ∷ decimal (suc n)
