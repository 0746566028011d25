-- ===== src/Common/Results.antt =====
-- `Result<A, E>` and the `?` that passes an error on.
use mathlib.Core.Path.{◌≡◌, refl}
use mathlib.Core.Logic.{◌⊎◌, inl, inr}
use mathlib.Core.Option.{Option, none, some}

pub data Result {ℓ κ} (A : Type ℓ) (E : Type κ) : Type (ℓ ⊔ κ) where
  ok : A → Result A E
  err : E → Result A E

infixl 5 ◌>>=◌
abbrev pub ◌>>=◌ {ℓ κ μ} :
    {A : Type ℓ} {B : Type κ} {E : Type μ} → Result A E → (A → Result B E) → Result B E
ok a >>= f = f a
err e >>= f = err e

-- `Option::ok_or`.
abbrev pub ok_or {ℓ κ} : {A : Type ℓ} {E : Type κ} → E → Option A → Result A E
ok_or e none = err e
ok_or e (some a) = ok a

-- `Result::map_err`.
abbrev pub map_err {ℓ κ μ} :
    {A : Type ℓ} {E : Type κ} {F : Type μ} → (E → F) → Result A E → Result A F
map_err f (ok a) = ok a
map_err f (err e) = err (f e)

pub ok_injective {ℓ κ} :
    {A : Type ℓ} {E : Type κ} {a b : A} → ◌≡◌ {A = Result A E} (ok a) (ok b) → a ≡ b
ok_injective h = cc

pub err_injective {ℓ κ} :
    {A : Type ℓ} {E : Type κ} {d e : E} → ◌≡◌ {A = Result A E} (err d) (err e) → d ≡ e
err_injective h = cc

pub some_injective {ℓ} : {A : Type ℓ} {a b : A} → some a ≡ some b → a ≡ b
some_injective h = cc

-- To split on a computed result and keep the equation.
pub Result-cases {ℓ κ} :
    {A : Type ℓ} {E : Type κ} (m : Result A E) → ((a : A) × (m ≡ ok a)) ⊎ ((e : E) × (m ≡ err e))
Result-cases (ok a) = inl (a, refl)
Result-cases (err e) = inr (e, refl)
