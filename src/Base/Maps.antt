-- ===== src/Base/Maps.antt =====
-- `std::collections::HashMap` as an association list in which a key stands at most once.
use Prim.Native.Nat.{ℕ, ◌+◌, ◌≤◌}
use mathlib.Core.Path.{◌≡◌, refl, ap, ap₂, subst}
use mathlib.Core.Logic.{◌↔◌, inl, inr}
use mathlib.Core.Bool.{Bool, true, ◌&&◌}
use mathlib.Core.Option.{Option, none, some}
use mathlib.Core.List.{List, [], ◌∷◌}
use native.Mathlib.Omega.{arith}
use video.Base.Tests.{if◌then◌else◌, Bool-cases, ==_iff, ◌==◌ as nat_beq}
use video.Base.Lists.{length, All}

pub record Eq {ℓ} (A : Type ℓ) : Type ℓ where
  pub beq : A → A → Bool
  pub beq_iff : (a b : A) → (beq a b ≡ true) ↔ (a ≡ b)

instance abbrev pub nat_eq : Eq ℕ
nat_eq = record { beq = nat_beq; beq_iff = ==_iff }

pub pair_beq_iff : (a b : ℕ × ℕ) → ((nat_beq a.0 b.0 && nat_beq a.1 b.1) ≡ true) ↔ (a ≡ b)
pair_beq_iff (a, b) (c, d) = (
  λ h. ap₂ (λ x y. (x, y)) (ground arith) (ground arith),
  λ h. first_and_second (ap (λ p. p.0) h) (ap (λ p. p.1) h),
)
  where
    first_and_second : a ≡ c → b ≡ d → (nat_beq a c && nat_beq b d) ≡ true
    first_and_second p q = ground arith

instance abbrev pub pair_eq : Eq (ℕ × ℕ)
pair_eq = record { beq = λ a b. nat_beq a.0 b.0 && nat_beq a.1 b.1; beq_iff = pair_beq_iff }

abbrev pub Map {ℓ κ} : Type ℓ → Type κ → Type (ℓ ⊔ κ)
Map K V = List (K × V)

pub beq_self {ℓ} : {K : Type ℓ} ⦃e : Eq K⦄ (k : K) → e.beq k k ≡ true
beq_self ⦃e⦄ k = (e.beq_iff k k).1 refl

module _ {ℓ κ} {K : Type ℓ} {V : Type κ} ⦃e : Eq K⦄ where
  unfoldable pub get : K → Map K V → Option V
  get k [] = none
  get k ((j, v) ∷ m) = if e.beq j k then some v else get k m

  unfoldable pub insert : K → V → Map K V → Map K V
  insert k v [] = (k, v) ∷ []
  insert k v ((j, w) ∷ m) = if e.beq j k then (k, v) ∷ m else (j, w) ∷ insert k v m

  unfoldable pub remove : K → Map K V → Map K V
  remove k [] = []
  remove k ((j, w) ∷ m) = if e.beq j k then m else (j, w) ∷ remove k m

  pub get-insert_self : (k : K) (v : V) (m : Map K V) → get k (insert k v m) ≡ some v
  unfolding get insert
  get-insert_self k v [] = rw (beq_self k)
  get-insert_self k v ((j, w) ∷ m) = elim (Bool-cases (e.beq j k)) [
    | inl same ↦ rw same (rw (beq_self k))
    | inr other ↦ rw other (rw other (get-insert_self k v m))
  ]

  -- A new key takes one place more, and a known one none.
  pub length-insert_new :
      (k : K) (v : V) (m : Map K V) → get k m ≡ none → length (insert k v m) ≡ length m + 1
  unfolding get insert
  length-insert_new k v [] h = omega arith
  length-insert_new k v ((j, w) ∷ m) h = elim (Bool-cases (e.beq j k)) [
    | inl same ↦ absurd (ground (arith, same))
    | inr other ↦ rw other (omega (arith, length-insert_new k v m (ground (arith, other))))
  ]

  pub length-insert_known :
      (k : K) (v w : V) (m : Map K V) → get k m ≡ some w → length (insert k v m) ≡ length m
  unfolding get insert
  length-insert_known k v w [] h = cc
  length-insert_known k v w ((j, u) ∷ m) h = elim (Bool-cases (e.beq j k)) [
    | inl same ↦ rw same (omega arith)
    | inr other ↦ rw other (omega (arith, length-insert_known k v w m (ground (arith, other))))
  ]

  pub length-insert-le : (k : K) (v : V) (m : Map K V) → length (insert k v m) ≤ length m + 1
  unfolding insert
  length-insert-le k v [] = omega arith
  length-insert-le k v ((j, w) ∷ m) = elim (Bool-cases (e.beq j k)) [
    | inl same ↦ rw same (omega arith)
    | inr other ↦ rw other (omega (arith, length-insert-le k v m))
  ]

  pub insert-insert : (k : K) (v w : V) (m : Map K V) → insert k w (insert k v m) ≡ insert k w m
  unfolding insert
  insert-insert k v w [] = rw (beq_self k)
  insert-insert k v w ((j, u) ∷ m) = elim (Bool-cases (e.beq j k)) [
    | inl same ↦ rw same (rw (beq_self k))
    | inr other ↦ rw other (rw other (ap (λ t. (j, u) ∷ t) (insert-insert k v w m)))
  ]

  pub remove-insert_new :
      (k : K) (v : V) (m : Map K V) → get k m ≡ none → remove k (insert k v m) ≡ m
  unfolding get insert remove
  remove-insert_new k v [] h = rw (beq_self k)
  remove-insert_new k v ((j, w) ∷ m) h = elim (Bool-cases (e.beq j k)) [
    | inl same ↦ absurd (ground (arith, same))
    | inr other ↦
        rw other (rw other (ap (λ t. (j, w) ∷ t) (remove-insert_new k v m (ground (arith, other)))))
  ]

  pub length-remove-le : (k : K) (m : Map K V) → length (remove k m) ≤ length m
  unfolding remove
  length-remove-le k [] = omega arith
  length-remove-le k ((j, w) ∷ m) = elim (Bool-cases (e.beq j k)) [
    | inl same ↦ rw same (omega arith)
    | inr other ↦ rw other (omega (arith, length-remove-le k m))
  ]

  -- A property of every value.
  abbrev pub AllValues {μ} : (V → Type μ) → Map K V → Type μ
  AllValues P m = All (λ (_, v). P v) m

  pub AllValues-insert {μ} :
      (P : V → Type μ) (k : K) (v : V) (m : Map K V)
      → P v
      → AllValues P m
      → AllValues P (insert k v m)
  unfolding insert
  AllValues-insert P k v [] h hs = (h, tt)
  AllValues-insert P k v ((j, w) ∷ m) h (hw, hs) = elim (Bool-cases (e.beq j k)) [
    | inl same ↦ rw same (h, hs)
    | inr other ↦ rw other (hw, AllValues-insert P k v m h hs)
  ]

  pub AllValues-remove {μ} :
      (P : V → Type μ) (k : K) (m : Map K V) → AllValues P m → AllValues P (remove k m)
  unfolding remove
  AllValues-remove P k [] hs = tt
  AllValues-remove P k ((j, w) ∷ m) (hw, hs) = elim (Bool-cases (e.beq j k)) [
    | inl same ↦ rw same hs
    | inr other ↦ rw other (hw, AllValues-remove P k m hs)
  ]

  pub AllValues-get {μ} :
      (P : V → Type μ) (k : K) (v : V) (m : Map K V) → AllValues P m → get k m ≡ some v → P v
  unfolding get
  AllValues-get P k v [] hs h = cc
  AllValues-get P k v ((j, w) ∷ m) (hw, hs) h = elim (Bool-cases (e.beq j k)) [
    | inl same ↦ let found : some w ≡ some v = rw same at h in subst P (cc) hw
    | inr other ↦ AllValues-get P k v m hs (ground (arith, other))
  ]
