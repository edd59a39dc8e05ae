-- ===== src/Roster.antt =====
-- What the table of server/client_pool.c and the threads of server/main.c promise, without slots:
-- a bag of clients that grows when a connection is accepted and shrinks when a client leaves.
pub mod Slots
pub mod Steps
use lso_server.Base.{
  ℕ, zero, suc, ◌+◌, ◌<◌, ◌≡◌, refl, ap, sym, ◌∙◌, ◌⊎◌, List, [], ◌∷◌, arith, length, ◌==◌,
  if◌then◌else◌,
}
use mathlib.Core.Logic.{∥∥₁_elim}
use mathlib.Core.List.{Perm, Permᴰ}
use mathlib.Core.List.Perm
use mathlib.Core.List.Permᴰ
use mathlib.Core.Quot
use mathlib.Core.Quot.{Quot, Quot-set}
use native.Mathlib.Nat.{ℕ_set}
use lso_server.World.{Pointer, addr}
use lso_server.ClientPool.{max_clients}

length-Permᴰ : {xs ys : List ℕ} → Permᴰ xs ys → length xs ≡ length ys
length-Permᴰ Permᴰ.nil = refl
length-Permᴰ (Permᴰ.cons e d) = ap suc (length-Permᴰ d)
length-Permᴰ (Permᴰ.swap e f) = refl
length-Permᴰ (Permᴰ.trans d d') = length-Permᴰ d ∙ length-Permᴰ d'

pub length-Perm : {xs ys : List ℕ} → Perm xs ys → length xs ≡ length ys
length-Perm {xs} {ys} h = ∥∥₁_elim h (ℕ_set (length xs) (length ys)) length-Permᴰ

abbrev pub count : ℕ → List ℕ → ℕ
count a [] = 0
count a (x ∷ xs) = let rest = count a xs in if a == x then suc rest else rest

count-Permᴰ : (a : ℕ) {xs ys : List ℕ} → Permᴰ xs ys → count a xs ≡ count a ys
count-Permᴰ a Permᴰ.nil = refl
count-Permᴰ a (Permᴰ.cons e d) = ground (arith, e, count-Permᴰ a d)
count-Permᴰ a (Permᴰ.swap e f) = ground (arith, e, f)
count-Permᴰ a (Permᴰ.trans d d') = count-Permᴰ a d ∙ count-Permᴰ a d'

pub count-Perm : (a : ℕ) {xs ys : List ℕ} → Perm xs ys → count a xs ≡ count a ys
count-Perm a {xs} {ys} h = ∥∥₁_elim h (ℕ_set (count a xs) (count a ys)) (count-Permᴰ a)

-- The addresses of the clients, in no order.
abbrev pub Bag : Type 0
Bag = Quot {α = List ℕ} Perm

unfoldable pub put : ℕ → Bag → Bag
put a = Quot.lift Quot-set (λ xs. Quot.mk (a ∷ xs)) (λ xs ys h. Quot.sound (Perm.cons a h))

unfoldable pub size : Bag → ℕ
size = Quot.lift ℕ_set length (λ xs ys h. length-Perm h)

unfoldable pub occurrences : ℕ → Bag → ℕ
occurrences a = Quot.lift ℕ_set (count a) (λ xs ys h. count-Perm a h)

pub data Event : Type 0 where
  connects : Event
  speaks : Event
  hangs_up : Pointer → Event

-- What an event does to the bag: a connection is turned away if there are 10 clients, and
-- otherwise adds one that is not there yet; what a client says changes nothing; a client that
-- hangs up is taken out, if it is there.
abbrev pub Moves : Event → Bag → Bag → Type 0
Moves connects b b' =
    ((size b ≡ max_clients) × (b' ≡ b))
    ⊎ ((a : ℕ) × (size b < max_clients) × (occurrences a b ≡ 0) × (b' ≡ put a b))
Moves speaks b b' = b' ≡ b
Moves (hangs_up p) b b' =
    ((a : ℕ) × (p ≡ addr a) × (occurrences a b' ≡ 0) × (b ≡ put a b'))
    ⊎ ((a : ℕ) × (p ≡ addr a) × (occurrences a b ≡ 0) × (b' ≡ b))
