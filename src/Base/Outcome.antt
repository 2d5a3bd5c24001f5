-- ===== src/Base/Outcome.antt =====
-- Rust's `Result`, and a run that returns, panics, or is still looping when its fuel is spent.
use mathlib.Core.Path.{◌≡◌, refl}

pub data Result {ℓ κ} (E : Type κ) (A : Type ℓ) : Type (ℓ ⊔ κ) where
  ok : A → Result E A
  err : E → Result E A

pub data Run {ℓ} (A : Type ℓ) : Type ℓ where
  returns : A → Run A
  panics diverges : Run A

infixl 5 ◌>>=◌
abbrev pub ◌>>=◌ {ℓ κ} : {A : Type ℓ} {B : Type κ} → Run A → (A → Run B) → Run B
returns a >>= f = f a
panics >>= f = panics
diverges >>= f = diverges

-- The run returns, with a value that satisfies `P`.
abbrev pub Returns {ℓ κ} : {A : Type ℓ} → Run A → (A → Type κ) → Type (ℓ ⊔ κ)
Returns {A} r P = (a : A) × (r ≡ returns a) × P a

-- The value that a run of known result carries into what follows.
pub Returns-map {ℓ κ μ} :
    {A : Type ℓ} {P : A → Type κ} {Q : A → Type μ} (r : Run A)
    → ((a : A) → P a → Q a)
    → Returns r P
    → Returns r Q
Returns-map r f (a, e, p) = (a, e, f a p)

-- A run in two steps that returns has returned from each.
pub bind-returns {ℓ κ} :
    {A : Type ℓ} {B : Type κ} (r : Run A) (f : A → Run B) (b : B)
    → (r >>= f) ≡ returns b
    → (a : A) × (r ≡ returns a) × (f a ≡ returns b)
bind-returns (returns a) f b h = (a, refl, h)
bind-returns panics f b h = absurd (cc)
bind-returns diverges f b h = absurd (cc)
