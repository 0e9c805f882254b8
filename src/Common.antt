-- ===== src/Common.antt =====
-- Names that every module shares: the libraries', passed on, Boolean tests on native numbers,
-- decidable equality of texts, and small facts on Booleans and options.
pub mod Exec
pub mod Dict
pub mod Lists
use Prim.Native.Nat.{compare, Ordering}
use text.Mathlib.Text.{◌==◌ as str_eq}
use text.Mathlib.TextEquality.{eq_iff}
pub use Prim.Native.Nat.{ℕ, zero, suc, ◌+◌, ◌-◌, ◌*◌, ◌/◌, ◌%◌, ◌^◌, ◌≤◌, ◌<◌}
pub use Prim.Native.String.{String}
pub use mathlib.Core.Path.{◌≡◌, refl, sym, ap, ◌∙◌, subst}
pub use mathlib.Core.Logic.{◌≢◌, ◌⊎◌, inl, inr, ◌↔◌, ite, if_pos, if_neg}
pub use mathlib.Core.Bool.{Bool, true, false, not, ◌&&◌, ◌||◌}
pub use mathlib.Core.Option.{Option, none, some}
pub use mathlib.Core.List.{List, [], ◌∷◌, ◌++◌, map}
pub use native.Mathlib.Omega.{arith}
unfoldable pub use native.Mathlib.Decide.{ℕ_discrete}

abbrev pub ltb : ℕ → ℕ → Bool
ltb a b = elim (compare a b) [ Ordering.lt ↦ true | _ ↦ false ]

abbrev pub leb : ℕ → ℕ → Bool
leb a b = elim (compare a b) [ Ordering.gt ↦ false | _ ↦ true ]

infix 50 ◌==◌
abbrev pub ◌==◌ : ℕ → ℕ → Bool
a == b = elim (compare a b) [ Ordering.eq ↦ true | _ ↦ false ]

infix 1 if◌then◌else◌
abbrev pub if◌then◌else◌ {ℓ} : {A : Type ℓ} → Bool → A → A → A
if true then x else y = x
if false then x else y = y

dec_of {ℓ} : {P : Type ℓ} (b : Bool) → (b ≡ true) ↔ P → Dec P
dec_of true h = yes (h.0 refl)
dec_of false h = no (λ p. cc (h.1 p))

-- Texts are compared by a decision, which hands each branch its equation.
unfoldable pub String_discrete : Discrete String
unfolding dec_of
String_discrete s t = dec_of (str_eq s t) (eq_iff s t)

pub Bool-cases : (b : Bool) → (b ≡ true) ⊎ (b ≡ false)
Bool-cases true = inl refl
Bool-cases false = inr refl

pub Option-cases {ℓ} : {A : Type ℓ} (o : Option A) → (o ≡ none) ⊎ ((a : A) × (o ≡ some a))
Option-cases none = inl refl
Option-cases (some a) = inr (a, refl)
