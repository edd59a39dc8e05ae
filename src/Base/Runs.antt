-- ===== src/Base/Runs.antt =====
-- How a run of C code ends: with a value, in undefined behaviour (a read or write outside of an
-- object, through a null or dangling pointer, of an uninitialised byte), or by `exit`.
use mathlib.Core.Path.{◌≡◌, refl, sym, ap, ◌∙◌}
use mathlib.Core.Logic.{◌↔◌}

pub data Result {ℓ} (A : Type ℓ) : Type ℓ where
  ok : A → Result A
  fault : Result A
  exited : Result A

infixl 5 ◌>>=◌
abbrev pub ◌>>=◌ {ℓ κ} : {A : Type ℓ} {B : Type κ} → Result A → (A → Result B) → Result B
ok a >>= f = f a
fault >>= f = fault
exited >>= f = exited

-- The run returns, and its value satisfies `P`.
abbrev pub Returns {ℓ κ} : {A : Type ℓ} → (A → Type κ) → Result A → Type (ℓ ⊔ κ)
Returns {A} P r = (a : A) × (r ≡ ok a) × P a

pub >>=-ok {ℓ} : {A : Type ℓ} (r : Result A) → (r >>= ok) ≡ r
>>=-ok (ok a) = refl
>>=-ok fault = refl
>>=-ok exited = refl

ok_injective {ℓ} : {A : Type ℓ} {a b : A} → ok a ≡ ok b → a ≡ b
ok_injective h = cc

-- A value that is right exactly if `P` is returned exactly if `P`.
pub ok-eq_iff {ℓ κ} :
    {A : Type ℓ} {P : Type κ} {x y v : A} → (x ≡ y) ↔ P → y ≡ v → (ok x ≡ ok v) ↔ P
ok-eq_iff e right = (λ h. e.0 (ok_injective h ∙ sym right), λ p. ap ok (e.1 p ∙ right))

pub Returns-bind {ℓ κ μ ν} :
    {A : Type ℓ} {B : Type μ} {P : A → Type κ} {Q : B → Type ν} {f : A → Result B} (r : Result A)
    → Returns P r
    → ((a : A) → P a → Returns Q (f a))
    → Returns Q (r >>= f)
Returns-bind {f} r (a, e, p) next = let (b, e', q) = next a p in (b, rw e e', q)
