-- ===== src/Prelude/Tests.antt =====
-- Boolean tests on numbers and on byte strings, and the conditional.
use Prim.Native.Char.{code}
use Prim.Native.Nat.{ℕ, compare, Ordering}
use Prim.Native.String.{String}
use mathlib.Core.Bool.{Bool, true, false, ◌&&◌}
use mathlib.Core.List.{List, [], ◌∷◌}
use mathlib.Core.Logic.{◌↔◌, ◌⊎◌, inl, inr}
use mathlib.Core.Option.{Option, none, some}
use mathlib.Core.Path.{◌≡◌, refl}
use native.Mathlib.Omega.{arith}

abbrev pub ltb : ℕ → ℕ → Bool
ltb a b = elim (compare a b) [ Ordering.lt ↦ true | _ ↦ false ]

abbrev pub leb : ℕ → ℕ → Bool
leb a b = elim (compare a b) [ Ordering.gt ↦ false | _ ↦ true ]

infix 50 ◌==◌
abbrev pub ◌==◌ : ℕ → ℕ → Bool
a == b = elim (compare a b) [ Ordering.eq ↦ true | _ ↦ false ]

infix 1 if◌then◌else◌
abbrev pub if◌then◌else◌ {ℓ} : {A : Type ℓ} → Bool → A → A → A
if true then x else y = x
if false then x else y = y

pub Bool-cases : (b : Bool) → (b ≡ true) ⊎ (b ≡ false)
Bool-cases true = inl refl
Bool-cases false = inr refl

pub Option-cases {ℓ} : {A : Type ℓ} (o : Option A) → (o ≡ none) ⊎ ((a : A) × (o ≡ some a))
Option-cases none = inl refl
Option-cases (some a) = inr (a, refl)

-- A Go string is the list of its bytes.
abbrev pub Bytes : Type 0
Bytes = List ℕ

-- The bytes of an ASCII literal.
abbrev pub codes : String → Bytes
codes String.[] = []
codes (String.◌∷◌ c s) = code c ∷ codes s

-- `==` on Go strings.
infix 50 ◌=?◌
unfoldable pub ◌=?◌ : Bytes → Bytes → Bool
[] =? [] = true
[] =? (_ ∷ _) = false
(_ ∷ _) =? [] = false
(a ∷ s) =? (b ∷ t) = (a == b) && (s =? t)

pub bytes_eq_of_true : (s t : Bytes) → (s =? t) ≡ true → s ≡ t
unfolding ◌=?◌
bytes_eq_of_true [] [] h = refl
bytes_eq_of_true [] (b ∷ t) h = ground arith
bytes_eq_of_true (a ∷ s) [] h = ground arith
bytes_eq_of_true (a ∷ s) (b ∷ t) h = ground (arith, bytes_eq_of_true s t)

pub bytes_eq_refl : (s : Bytes) → (s =? s) ≡ true
unfolding ◌=?◌
bytes_eq_refl [] = refl
bytes_eq_refl (a ∷ s) = ground (arith, bytes_eq_refl s)

pub bytes_true_of_eq : (s t : Bytes) → s ≡ t → (s =? t) ≡ true
bytes_true_of_eq s t h = ground (arith, bytes_eq_refl s)

pub bytes_eq_iff : (s t : Bytes) → ((s =? t) ≡ true) ↔ (s ≡ t)
bytes_eq_iff s t = (bytes_eq_of_true s t, bytes_true_of_eq s t)
