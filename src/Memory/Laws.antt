-- ===== src/Memory/Laws.antt =====
-- Loads, stores and copies at a block that is split where they happen.
use lso_server.Base.{
  Bool, true, ◌&&◌, ℕ, zero, suc, ◌<◌, ◌≡◌, refl, ap, List, [], ◌∷◌, ◌++◌, map, some, ok, arith,
  length, set, ◌+◌, get_elem?, length-append, length-map, length-replicate, none, lt→ltb, ltb,
  Bool-cases, inl, inr, ◌⊎◌, Option, fault, get_elem?-past, ◌≤◌, set-append, get_elem?-append,
}
use lso_server.Memory.{Cell, Block, malloc_bytes, load, store, strlen, read_cell}

abbrev pub init : List ℕ → Block
init = map some

pub length-init : (bs : List ℕ) → length (init bs) ≡ length bs
length-init bs = length-map some bs

pub length-malloc : (n : ℕ) → length (malloc_bytes n) ≡ n
unfolding malloc_bytes
length-malloc n = length-replicate n none

-- A store and a load behind the prefix `m`.
module _ (m xs : Block) {i : ℕ} (j : ℕ) (at : i ≡ length m + j) where
  pub store-append : (b : ℕ) → j < length xs → store (m ++ xs) i b ≡ ok (m ++ set xs j (some b))
  unfolding store
  store-append b h =
      rw (at, lt→ltb (length m + j) (length (m ++ xs)) (omega (arith, length-append m xs)))
        (ap ok (set-append m xs j (some b)))

  pub load-append : load (m ++ xs) i ≡ load xs j
  unfolding load
  load-append = rw at (ap read_cell (get_elem?-append m xs j))

-- A C string: its bytes, none of them zero, then a zero.
abbrev pub NonZero : List ℕ → Type 0
NonZero [] = Unit
NonZero (b ∷ bs) = (0 < b) × NonZero bs

abbrev are_positive : List ℕ → Bool
are_positive [] = true
are_positive (b ∷ bs) = ltb 0 b && are_positive bs

pub are_positive-NonZero : (bs : List ℕ) → are_positive bs ≡ true → NonZero bs
are_positive-NonZero [] h = tt
are_positive-NonZero (b ∷ bs) h = (ground arith, are_positive-NonZero bs (ground arith))

pub strlen-init :
    (bs : List ℕ) (rest : Block) → NonZero bs → strlen (init bs ++ some 0 ∷ rest) ≡ ok (length bs)
unfolding strlen
strlen-init [] rest h = refl
strlen-init (zero ∷ bs) rest h = absurd (omega arith)
strlen-init (suc b ∷ bs) rest h = rw (strlen-init bs rest h.1)

-- A load ends in a byte or in undefined behaviour, and so does a store.
pub load-cases : (m : Block) (i : ℕ) → (load m i ≡ fault) ⊎ ((b : ℕ) × (load m i ≡ ok b))
unfolding load
load-cases m i = cell (get_elem? m i)
  where
    cell : (c : Option Cell) → (read_cell c ≡ fault) ⊎ ((b : ℕ) × (read_cell c ≡ ok b))
    cell none = inl refl
    cell (some none) = inl refl
    cell (some (some b)) = inr (b, refl)

pub store-cases :
    (m : Block) (i b : ℕ) → (store m i b ≡ fault) ⊎ ((m' : Block) × (store m i b ≡ ok m'))
unfolding store
store-cases m i b = elim (Bool-cases (ltb i (length m))) [
  | inl inside ↦ inr (set m i (some b), rw inside)
  | inr outside ↦ inl (rw outside)
]

pub load-past : (m : Block) (i : ℕ) → length m ≤ i → load m i ≡ fault
unfolding load
load-past m i h = rw (get_elem?-past m i h)
