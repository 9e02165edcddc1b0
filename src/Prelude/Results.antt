-- ===== src/Prelude/Results.antt =====
-- Rust's `Result`, with `?` as the bind of a `do` block, and the methods of `Option` that the
-- tools chain.
use mathlib.Core.Path.{◌≡◌, refl, subst}
use mathlib.Core.Bool.{Bool, true, false}
use mathlib.Core.Option.{Option, none, some}

pub data Result {ℓ κ} (E : Type κ) (A : Type ℓ) : Type (ℓ ⊔ κ) where
  ok : A → Result E A
  err : E → Result E A

infixl 5 ◌>>=◌ ◌>>◌
abbrev pub ◌>>=◌ {ℓ κ μ} :
    {E : Type κ} {A : Type ℓ} {B : Type μ} → Result E A → (A → Result E B) → Result E B
ok a >>= f = f a
err e >>= f = err e

abbrev pub ◌>>◌ {ℓ κ} : {E : Type κ} {B : Type ℓ} → Result E (Unit {0}) → Result E B → Result E B
m >> k = m >>= λ _. k

module _ {ℓ} {A : Type ℓ} where
  abbrev pub unwrap_or : Option A → A → A
  unwrap_or none d = d
  unwrap_or (some a) d = a

  abbrev pub ok_or {κ} : {E : Type κ} → Option A → E → Result E A
  ok_or none e = err e
  ok_or (some a) e = ok a

  abbrev pub and_then {κ} : {B : Type κ} → Option A → (A → Option B) → Option B
  and_then none f = none
  and_then (some a) f = f a

-- `if !test { return Err(e) }`
abbrev pub ensure {κ} : {E : Type κ} → Bool → E → Result E (Unit {0})
ensure true e = ok tt
ensure false e = err e

-- What holds of a successful result.
abbrev pub IfOk {ℓ κ μ} : {E : Type κ} {A : Type ℓ} → (A → Type μ) → Result E A → Type μ
IfOk P (ok a) = P a
IfOk P (err e) = Unit

module _ {ℓ κ μ ν} {E : Type κ} {A : Type ℓ} {B : Type ν} (P : B → Type μ) where
  pub IfOk-bind :
      (r : Result E A) (f : A → Result E B) → ((a : A) → IfOk P (f a)) → IfOk P (r >>= f)
  IfOk-bind (ok a) f h = h a
  IfOk-bind (err e) f h = tt

module _ {ℓ κ μ} {E : Type κ} {B : Type ℓ} (P : B → Type μ) where
  pub IfOk-ensure :
      (b : Bool) (e : E) (k : Result E B) → (b ≡ true → IfOk P k) → IfOk P (ensure b e >> k)
  IfOk-ensure true e k h = h refl
  IfOk-ensure false e k h = tt

  pub IfOk-ok : (r : Result E B) (b : B) → r ≡ ok b → IfOk P r → P b
  IfOk-ok r b e h = subst (IfOk P) e h
