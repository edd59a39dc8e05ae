-- ===== src/Main/Prints.antt =====
-- What server/main.c prints of an address, and when it gives up.
use lso_server.Base.{
  ℕ, ◌+◌, ◌*◌, ◌/◌, ◌%◌, ◌^◌, ◌<◌, bit_and, ◌≡◌, ap, ◌∙◌, ◌⊎◌, inl, inr, List, [], ◌∷◌, ◌++◌, ℤ,
  pos, ok, arith, ltb_ℤ, true, Bool-cases,
}
use lso_server.Base.Bits.{bit_and_shifted, bit_and_255}
use lso_server.World.{codes}
use lso_server.Database.{atoi}
use lso_server.Text.{decimal}
use lso_server.Main.{print_client_addr, System, exits, Started, listen_on, start_main, exit_failure}

-- The byte at bit `k`, under its mask.
masked_byte : (k q r : ℕ) → r < 2 ^ k → bit_and (q * 2 ^ k + r) (255 * 2 ^ k) ≡ q % 256 * 2 ^ k
masked_byte k q r fits = bit_and_shifted k q 255 r fits ∙ ap (λ (x : ℕ). x * 2 ^ k) (bit_and_255 q)

-- The four bytes of an address, the first one lowest.
abbrev pub address : ℕ → ℕ → ℕ → ℕ → ℕ
address a b c d = a + (b * 2 ^ 8 + (c * 2 ^ 16 + d * 2 ^ 24))

module _ (a b c d : ℕ) (ha : a < 256) (hb : b < 256) (hc : c < 256) (hd : d < 256) where
  first : bit_and (address a b c d) 0xff ≡ a
  first = bit_and_255 (address a b c d) ∙ omega arith

  second : bit_and (address a b c d) 0xff00 / 2 ^ 8 ≡ b
  second =
      ap (λ (x : ℕ). bit_and x 0xff00 / 2 ^ 8) {y = (b + (c * 2 ^ 8 + d * 2 ^ 16)) * 2 ^ 8 + a}
        (omega arith)
      ∙ ap (λ (x : ℕ). x / 2 ^ 8) (masked_byte 8 (b + (c * 2 ^ 8 + d * 2 ^ 16)) a (omega arith))
      ∙ omega arith

  third : bit_and (address a b c d) 0xff0000 / 2 ^ 16 ≡ c
  third =
      ap (λ (x : ℕ). bit_and x 0xff0000 / 2 ^ 16) {y = (c + d * 2 ^ 8) * 2 ^ 16 + (a + b * 2 ^ 8)}
        (omega arith)
      ∙ ap (λ (x : ℕ). x / 2 ^ 16) (masked_byte 16 (c + d * 2 ^ 8) (a + b * 2 ^ 8) (omega arith))
      ∙ omega arith

  fourth : bit_and (address a b c d) 0xff000000 / 2 ^ 24 ≡ d
  fourth =
      ap (λ (x : ℕ). bit_and x 0xff000000 / 2 ^ 24)
        {y = d * 2 ^ 24 + (a + (b * 2 ^ 8 + c * 2 ^ 16))} (omega arith)
      ∙ ap (λ (x : ℕ). x / 2 ^ 24) (masked_byte 24 d (a + (b * 2 ^ 8 + c * 2 ^ 16)) (omega arith))
      ∙ omega arith

  -- The address with the bytes a, b, c and d in memory is printed as those numbers with dots
  -- between them.
  pub print_client_addr-dotted :
      print_client_addr (address a b c d)
      ≡ decimal a
        ++ (codes "." ++ (decimal b ++ (codes "." ++ (decimal c ++ (codes "." ++ decimal d)))))
  unfolding print_client_addr
  print_client_addr-dotted = rw (first, second, third, fourth)

abbrev Fails : System → Type 0
Fails system =
    (ltb_ℤ system.setsockopt (pos 0) ≡ true)
    ⊎ ((ltb_ℤ system.bind (pos 0) ≡ true) ⊎ (ltb_ℤ system.listen (pos 0) ≡ true))

listen_on-exits :
    (system : System) (port : ℤ) → Fails system → (listen_on system port).1 ≡ exits exit_failure
listen_on-exits system port (inl h) = rw h
listen_on-exits system port (inr (inl h)) = elim (Bool-cases (ltb_ℤ system.setsockopt (pos 0))) [
  | inl first ↦ rw first
  | inr first ↦ rw (first, h)
]
listen_on-exits system port (inr (inr h)) = elim (Bool-cases (ltb_ℤ system.setsockopt (pos 0))) [
  | inl first ↦ rw first
  | inr first ↦ elim (Bool-cases (ltb_ℤ system.bind (pos 0))) [
    | inl second ↦ rw (first, second)
    | inr second ↦ rw (first, second, h)
  ]
]

-- With a port in its argument, a call of setsockopt, bind or listen that fails makes main return
-- EXIT_FAILURE, so that no connection is accepted.
pub start_main-exits :
    (system : System) (name text : List ℕ) (port : ℤ)
    → atoi text ≡ ok port
    → Fails system
    → (out : List (List ℕ)) × (start_main system (name ∷ text ∷ []) ≡ ok (out, exits exit_failure))
unfolding start_main
start_main-exits system name text port e failed = (
  (listen_on system port).0,
  rw e (
      ap (λ (s : Started). ok ((listen_on system port).0, s)) (listen_on-exits system port failed)),
)
