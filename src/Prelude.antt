-- ===== src/Prelude.antt =====
-- Names, tests and list lemmas that the modules share.
pub use Prim.Native.Nat.{ℕ, zero, suc, ◌+◌, ◌-◌, ◌*◌, ◌≤◌, ◌<◌}
use Prim.Native.Nat.{compare, Ordering}
pub use Prim.Native.String.{String, ◌++◌ as ◌<>◌}
pub use mathlib.Core.Path.{◌≡◌, refl, sym, ◌∙◌, ap, subst, fun_ext}
pub use mathlib.Core.Logic.{◌≢◌, ◌↔◌, ◌⊎◌, inl, inr}
pub use mathlib.Core.Bool.{Bool, true, false, not, ◌&&◌, ◌||◌}
pub use mathlib.Core.Option.{Option, none, some, some_inj}
pub use mathlib.Core.List.{List, [], ◌∷◌, ◌++◌, map}
pub use native.Mathlib.Omega.{arith}
unfoldable pub use text.Mathlib.Text.{◌==◌}
pub use text.Mathlib.TextEquality.{eq_iff}
pub use text.Mathlib.TextPositions.{eq_refl}

abbrev pub leb : ℕ → ℕ → Bool
leb a b = elim (compare a b) [ Ordering.gt ↦ false | _ ↦ true ]

abbrev pub ltb : ℕ → ℕ → Bool
ltb a b = elim (compare a b) [ Ordering.lt ↦ true | _ ↦ false ]

-- `==` on numbers; the operator itself compares texts.
abbrev pub num_eq : ℕ → ℕ → Bool
num_eq a b = elim (compare a b) [ Ordering.eq ↦ true | _ ↦ false ]

infix 1 if◌then◌else◌
abbrev pub if◌then◌else◌ {ℓ} : {A : Type ℓ} → Bool → A → A → A
if true then x else y = x
if false then x else y = y

pub Bool-cases : (b : Bool) → (b ≡ true) ⊎ (b ≡ false)
Bool-cases true = inl refl
Bool-cases false = inr refl

pub Option-cases {ℓ} : {A : Type ℓ} (o : Option A) → (o ≡ none) ⊎ ((a : A) × (o ≡ some a))
Option-cases none = inl refl
Option-cases (some a) = inr (a, refl)

-- Equality of texts is decided by `==`.
pub str_cases : (s t : String) → (s ≡ t) ⊎ ((s == t) ≡ false)
str_cases s t = elim (Bool-cases (s == t)) [ inl e ↦ inl ((eq_iff s t).0 e) | inr e ↦ inr e ]

pub differs : (s t : String) → s ≢ t → (s == t) ≡ false
differs s t n = elim (str_cases s t) [ inl e ↦ absurd (n e) | inr f ↦ f ]

-- Python's `xs + ys` on a list that holds one more element at its end.
abbrev pub snoc {ℓ} : {A : Type ℓ} → List A → A → List A
snoc xs x = xs ++ x ∷ []

abbrev pub get_or {ℓ} : {A : Type ℓ} → A → Option A → A
get_or d none = d
get_or d (some a) = a

abbrev pub is_some {ℓ} : {A : Type ℓ} → Option A → Bool
is_some none = false
is_some (some a) = true

-- The library's `length` counts in another ℕ.
abbrev pub length {ℓ} : {A : Type ℓ} → List A → ℕ
length [] = 0
length (x ∷ rest) = 1 + length rest

pub length-snoc {ℓ} : {A : Type ℓ} (xs : List A) (x : A) → length (snoc xs x) ≡ length xs + 1
length-snoc [] x = refl
length-snoc (y ∷ xs) x = omega (arith, length-snoc xs x)
