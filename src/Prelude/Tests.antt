-- ===== src/Prelude/Tests.antt =====
-- Boolean tests on the native numbers, the conditional, and equality as an interface.
use Prim.Native.Nat.{ℕ, ◌≤◌, ◌<◌, compare, Ordering}
use mathlib.Core.Path.{◌≡◌, refl, subst}
use mathlib.Core.List.{List, [], ◌∷◌}
use mathlib.Core.Logic.{◌↔◌, ◌⊎◌, inl, inr}
use mathlib.Core.Bool.{Bool, true, false, ◌&&◌}
use mathlib.Core.Option.{Option, none, some}
use native.Mathlib.Omega.{arith}

abbrev pub ltb : ℕ → ℕ → Bool
ltb a b = elim (compare a b) [ Ordering.lt ↦ true | _ ↦ false ]

abbrev pub leb : ℕ → ℕ → Bool
leb a b = elim (compare a b) [ Ordering.gt ↦ false | _ ↦ true ]

abbrev pub eqb : ℕ → ℕ → Bool
eqb a b = elim (compare a b) [ Ordering.eq ↦ true | _ ↦ false ]

infix 1 if◌then◌else◌
abbrev pub if◌then◌else◌ {ℓ} : {A : Type ℓ} → Bool → A → A → A
if true then x else y = x
if false then x else y = y

pub ltb→lt : (a b : ℕ) → ltb a b ≡ true → a < b
ltb→lt a b h = ground arith

pub leb→le : (a b : ℕ) → leb a b ≡ true → a ≤ b
leb→le a b h = ground arith

pub ltb→le : (a b : ℕ) → ltb a b ≡ false → b ≤ a
ltb→le a b h = ground arith

pub leb→lt : (a b : ℕ) → leb a b ≡ false → b < a
leb→lt a b h = ground arith

pub lt→ltb : (a b : ℕ) → a < b → ltb a b ≡ true
lt→ltb a b h = ground arith

pub le→leb : (a b : ℕ) → a ≤ b → leb a b ≡ true
le→leb a b h = ground arith

pub le→ltb : (a b : ℕ) → b ≤ a → ltb a b ≡ false
le→ltb a b h = ground arith

pub lt→leb : (a b : ℕ) → b < a → leb a b ≡ false
lt→leb a b h = ground arith

pub eqb_iff : (a b : ℕ) → (eqb a b ≡ true) ↔ (a ≡ b)
eqb_iff a b = ground arith

pub ruleset tests = (arith, ltb→lt, leb→le, ltb→le, leb→lt)

-- To split on a computed value and keep the equation.
pub Bool-cases : (b : Bool) → (b ≡ true) ⊎ (b ≡ false)
Bool-cases true = inl refl
Bool-cases false = inr refl

pub Option-cases {ℓ} : {A : Type ℓ} (o : Option A) → (o ≡ none) ⊎ ((a : A) × (o ≡ some a))
Option-cases none = inl refl
Option-cases (some a) = inr (a, refl)

abbrev pub is_some {ℓ} : {A : Type ℓ} → Option A → Bool
is_some none = false
is_some (some a) = true

-- Types that Python compares by `==`, as dictionary keys are.
pub record DictKey {ℓ} (A : Type ℓ) : Type ℓ where
  pub equal : A → A → Bool
  pub equal_iff : (a b : A) → (equal a b ≡ true) ↔ (a ≡ b)

infix 50 ◌==◌
abbrev pub ◌==◌ {ℓ} : {A : Type ℓ} ⦃e : DictKey A⦄ → A → A → Bool
◌==◌ ⦃e⦄ = e.equal

instance abbrev pub nat_key : DictKey ℕ
nat_key = record { equal = eqb; equal_iff = eqb_iff }

module _ {ℓ} {A : Type ℓ} ⦃e : DictKey A⦄ where
  pub ==_refl : (a : A) → (a == a) ≡ true
  ==_refl a = (e.equal_iff a a).1 refl

  pub ==_cases : (a b : A) → ((a == b) ≡ true) × (a ≡ b) ⊎ ((a == b) ≡ false)
  ==_cases a b = elim (Bool-cases (a == b)) [
    | inl h ↦ inl (h, (e.equal_iff a b).0 h)
    | inr h ↦ inr h
  ]

  -- Equality of sequences, element by element.
  abbrev pub equal_list : List A → List A → Bool
  equal_list [] [] = true
  equal_list (x ∷ xs) (y ∷ ys) = x == y && equal_list xs ys
  equal_list _ _ = false

  equal_list-true : (xs ys : List A) → equal_list xs ys ≡ true → xs ≡ ys
  equal_list-true [] [] h = refl
  equal_list-true (x ∷ xs) (y ∷ ys) h = ground (arith, e.equal_iff x y, equal_list-true xs ys)
  equal_list-true [] (y ∷ ys) h = cc
  equal_list-true (x ∷ xs) [] h = cc

  equal_list_refl : (xs : List A) → equal_list xs xs ≡ true
  equal_list_refl [] = refl
  equal_list_refl (x ∷ xs) = ground (arith, ==_refl x, equal_list_refl xs)

  pub equal_list_iff : (xs ys : List A) → (equal_list xs ys ≡ true) ↔ (xs ≡ ys)
  equal_list_iff xs ys =
      (equal_list-true xs ys, λ p. subst (λ zs. equal_list xs zs ≡ true) p (equal_list_refl xs))

module _ {ℓ κ} {A : Type ℓ} {B : Type κ} ⦃e : DictKey A⦄ ⦃f : DictKey B⦄ where
  abbrev pub equal_pair : A × B → A × B → Bool
  equal_pair (a, b) (c, d) = e.equal a c && f.equal b d

  pub equal_pair_iff : (p q : A × B) → (equal_pair p q ≡ true) ↔ (p ≡ q)
  equal_pair_iff (a, b) (c, d) = ground (arith, e.equal_iff a c, f.equal_iff b d)

instance abbrev pub list_key {ℓ} : {A : Type ℓ} ⦃e : DictKey A⦄ → DictKey (List A)
list_key = record { equal = equal_list; equal_iff = equal_list_iff }

instance abbrev pub pair_key {ℓ κ} :
    {A : Type ℓ} {B : Type κ} ⦃e : DictKey A⦄ ⦃f : DictKey B⦄ → DictKey (A × B)
pair_key = record { equal = equal_pair; equal_iff = equal_pair_iff }
