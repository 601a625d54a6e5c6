-- ===== src/Feed/Ids.antt =====
-- Lists of IDs: membership by `==`, and lists without repetition.
use twitter_microservices.Prelude.{
  ℕ, zero, suc, ◌≡◌, refl, Bool, true, false, ◌||◌, some, List, [], ◌∷◌, ◌++◌, arith, Bytes, ◌=?◌,
  bytes_eq_refl, get_elem?,
}

abbrev pub mem? : Bytes → List Bytes → Bool
mem? x [] = false
mem? x (y ∷ ys) = y =? x || mem? x ys

-- No entry stands twice.
abbrev pub Distinct : List Bytes → Type 0
Distinct [] = Unit
Distinct (x ∷ xs) = (mem? x xs ≡ false) × Distinct xs

pub mem?-append : (x : Bytes) (xs ys : List Bytes) → mem? x (xs ++ ys) ≡ (mem? x xs || mem? x ys)
mem?-append x [] ys = refl
mem?-append x (y ∷ xs) ys = ground (arith, mem?-append x xs ys)

-- An entry that stands in a list is a member of it.
pub mem?-get_elem? :
    (xs : List Bytes) (i : ℕ) (x : Bytes) → get_elem? xs i ≡ some x → mem? x xs ≡ true
mem?-get_elem? [] i x h = cc
mem?-get_elem? (y ∷ ys) zero x h = ground (arith, bytes_eq_refl x)
mem?-get_elem? (y ∷ ys) (suc i) x h = ground (arith, mem?-get_elem? ys i x h)
