-- ===== src/Base/Results.antt =====
-- The outcome of a fallible operation. `panic` is a Rust panic (a slice out of range); `stuck`
-- has no counterpart in the program: a loop of the model ran out of its fuel.
use mathlib.Core.Path.{◌≡◌, refl, subst}
use mathlib.Core.Logic.{◌≢◌}

pub data Result {ℓ κ} (E : Type ℓ) (A : Type κ) : Type (ℓ ⊔ κ) where
  ok : A → Result E A
  err : E → Result E A
  panic : Result E A
  stuck : Result E A

infixl 5 ◌>>=◌ ◌>>◌
abbrev pub ◌>>=◌ {ℓ κ μ} :
    {E : Type ℓ} {A : Type κ} {B : Type μ} → Result E A → (A → Result E B) → Result E B
ok a >>= f = f a
err e >>= f = err e
panic >>= f = panic
stuck >>= f = stuck

abbrev pub ◌>>◌ {ℓ κ} : {E : Type ℓ} {B : Type κ} → Result E (Unit {0}) → Result E B → Result E B
m >> k = m >>= λ _. k

-- `map_err`: what the caller makes of the callee's error.
abbrev pub map_err {ℓ κ μ} :
    {E : Type ℓ} {F : Type κ} {A : Type μ} → (E → F) → Result E A → Result F A
map_err g (ok a) = ok a
map_err g (err e) = err (g e)
map_err g panic = panic
map_err g stuck = stuck

-- The operation ends: with a value of which `P` holds, with an error, or, only if `C`, with a
-- panic.
pub data Settles {ℓ κ μ} {E : Type ℓ} {A : Type κ} (C : Type 0) (P : A → Type μ)
    : Result E A → Type (ℓ ⊔ κ ⊔ μ) where
  value : {a : A} → P a → Settles C P (ok a)
  failed : {e : E} → Settles C P (err e)
  panicked : C → Settles C P panic

-- A panic counts as an end.
abbrev pub Yields {ℓ κ μ} : {E : Type ℓ} {A : Type κ} → (A → Type μ) → Result E A → Type (ℓ ⊔ κ ⊔ μ)
Yields P r = Settles Unit P r

-- There is no panic.
abbrev pub Returns {ℓ κ μ} :
    {E : Type ℓ} {A : Type κ} → (A → Type μ) → Result E A → Type (ℓ ⊔ κ ⊔ μ)
Returns P r = Settles ⊥ P r

module _ {ℓ κ μ} {E : Type ℓ} {A : Type κ} {C : Type 0} {P : A → Type μ} where
  pub Settles-ne-stuck : {r : Result E A} → Settles C P r → r ≢ stuck
  Settles-ne-stuck (value h) = λ p. cc
  Settles-ne-stuck failed = λ p. cc
  Settles-ne-stuck (panicked c) = λ p. cc

  pub Settles-ok : {r : Result E A} {a : A} → Settles C P r → r ≡ ok a → P a
  Settles-ok (value h) e = subst P (cc) h
  Settles-ok failed e = cc
  Settles-ok (panicked c) e = cc

  pub Settles->>= {ν ξ} :
      {B : Type ν} {Q : B → Type ξ} {r : Result E A} {f : A → Result E B}
      → Settles C P r
      → ((a : A) → P a → Settles C Q (f a))
      → Settles C Q (r >>= f)
  Settles->>= (value {a} h) k = k a h
  Settles->>= failed k = failed
  Settles->>= (panicked c) k = panicked c

  pub Settles-map_err {ν} :
      {F : Type ν} (g : E → F) {r : Result E A} → Settles C P r → Settles C P (map_err g r)
  Settles-map_err g (value h) = value h
  Settles-map_err g failed = failed
  Settles-map_err g (panicked c) = panicked c

  pub Settles-mono {ν} :
      {Q : A → Type ν} {r : Result E A} → Settles C P r → ((a : A) → P a → Q a) → Settles C Q r
  Settles-mono (value {a} h) k = value (k a h)
  Settles-mono failed k = failed
  Settles-mono (panicked c) k = panicked c

  -- A panic for one reason is one for another that follows.
  pub Settles-because : {D : Type 0} {r : Result E A} → Settles C P r → (C → D) → Settles D P r
  Settles-because (value h) k = value h
  Settles-because failed k = failed
  Settles-because (panicked c) k = panicked (k c)

-- What the value is, beside what holds of it.
pub Settles-known {ℓ κ μ} :
    {E : Type ℓ} {A : Type κ} {C : Type 0} {P : A → Type μ} {r : Result E A}
    → Settles C P r
    → Settles C (λ a. P a × (r ≡ ok a)) r
Settles-known (value h) = value (h, refl)
Settles-known failed = failed
Settles-known (panicked c) = panicked c
