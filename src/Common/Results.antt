-- ===== src/Common/Results.antt =====
-- `Result<A, E>`, with the binds that the source writes as `?`.
use mathlib.Core.Path.{◌≡◌, refl, ap}
use mathlib.Core.Logic.{◌⊎◌, inl, inr}
use mathlib.Core.Bool.{Bool, true, false}

pub data Result {ℓ} (E : Type 0) (A : Type ℓ) : Type ℓ where
  ok : A → Result E A
  err : E → Result E A

infixl 5 ◌>>=◌ ◌>>◌
abbrev pub ◌>>=◌ {ℓ κ} :
    {E : Type 0} {A : Type ℓ} {B : Type κ} → Result E A → (A → Result E B) → Result E B
ok a >>= f = f a
err e >>= f = err e

abbrev pub ◌>>◌ {ℓ} : {E : Type 0} {B : Type ℓ} → Result E (Unit {0}) → Result E B → Result E B
m >> k = m >>= λ _. k

-- `ensure!(test, e)`.
abbrev pub ensure : {E : Type 0} → Bool → E → Result E (Unit {0})
ensure true e = ok tt
ensure false e = err e

pub Result-cases {ℓ} :
    {E : Type 0} {A : Type ℓ} (r : Result E A) → ((a : A) × (r ≡ ok a)) ⊎ ((e : E) × (r ≡ err e))
Result-cases (ok a) = inl (a, refl)
Result-cases (err e) = inr (e, refl)

pub ok_injective {ℓ} :
    {E : Type 0} {A : Type ℓ} {a b : A} → ◌≡◌ {A = Result E A} (ok a) (ok b) → a ≡ b
ok_injective {A = A} {a = a} e = ap {B = A} (λ r. elim r [ ok c ↦ c | err x ↦ a ]) e

-- Both parts of a sequence that answers have answered.
pub >>-ok {ℓ} :
    {E : Type 0} {B : Type ℓ} {m : Result E (Unit {0})} {k : Result E B} {b : B}
    → (m >> k) ≡ ok b
    → (m ≡ ok tt) × (k ≡ ok b)
>>-ok {m = ok tt} h = (refl, h)
>>-ok {m = err e} h = cc

pub ensure_ok : {E : Type 0} (test : Bool) (e : E) → ensure test e ≡ ok tt → test ≡ true
ensure_ok true e h = refl
ensure_ok false e h = cc

pub >>=-ok {ℓ κ} :
    {E : Type 0} {A : Type ℓ} {B : Type κ} (m : Result E A) {f : A → Result E B} {b : B}
    → (m >>= f) ≡ ok b
    → (a : A) × (m ≡ ok a) × (f a ≡ ok b)
>>=-ok (ok a) h = (a, refl, h)
>>=-ok (err e) h = cc

pub err_injective {ℓ} :
    {E : Type 0} {A : Type ℓ} {x y : E} → ◌≡◌ {A = Result E A} (err x) (err y) → x ≡ y
err_injective {E = E} {x = x} e = ap {B = E} (λ r. elim r [ ok c ↦ x | err y ↦ y ]) e
