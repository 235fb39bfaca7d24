-- ===== src/Common/Extends.antt =====
-- A buffer that only grows: `Extends xs ys` says that `ys` is `xs` with something behind it.
use mathlib.Core.Path.{◌≡◌, refl, sym, ap, ◌∙◌}
use mathlib.Core.List.{List, [], ◌++◌, append-nil, append_assoc}

pub record Extends {ℓ} {A : Type ℓ} (xs ys : List A) : Type ℓ where
  pub rest : List A
  pub whole : ys ≡ xs ++ rest

module _ {ℓ} {A : Type ℓ} where
  pub Extends-refl : (xs : List A) → Extends xs xs
  Extends-refl xs = record { rest = []; whole = sym (append-nil xs) }

  pub Extends-append : (xs ys : List A) → Extends xs (xs ++ ys)
  Extends-append xs ys = record { rest = ys; whole = refl }

  pub Extends-trans : (xs ys zs : List A) → Extends xs ys → Extends ys zs → Extends xs zs
  Extends-trans xs ys zs f g = record {
    rest = f.rest ++ g.rest;
    whole = g.whole ∙ ap (λ l. l ++ g.rest) f.whole ∙ append_assoc xs f.rest g.rest;
  }
