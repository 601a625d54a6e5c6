-- ===== src/Text.antt =====
-- Go's string routines that the services use: strings.Split, strings.SplitN(s, sep, 2),
-- strings.HasPrefix, and the decimal routines of strconv in the child.
pub mod Decimal
use twitter_microservices.Prelude.{
  ℕ, ◌+◌, ◌≡◌, ◌≢◌, refl, ap, Bool, true, false, ◌&&◌, Option, none, some, List, [], ◌∷◌, ◌++◌,
  arith, Bytes, ◌==◌, Bool-cases, inl, inr, if◌then◌else◌, All,
}

abbrev pub Lacks : ℕ → Bytes → Type 0
Lacks b = All (λ c. c ≢ b)

-- Add a byte in front of the first part.
abbrev push : ℕ → List Bytes → List Bytes
push c [] = (c ∷ []) ∷ []
push c (p ∷ ps) = (c ∷ p) ∷ ps

-- strings.Split(s, sep) for a separator of one byte.
unfoldable pub split : ℕ → Bytes → List Bytes
split sep [] = [] ∷ []
split sep (c ∷ s) = let rest = split sep s in if c == sep then [] ∷ rest else push c rest

-- strings.Join of at least one part.
abbrev pub join : ℕ → List Bytes → Bytes
join sep [] = []
join sep (p ∷ []) = p
join sep (p ∷ q ∷ ps) = p ++ (sep ∷ join sep (q ∷ ps))

-- strings.SplitN(s, sep, 2): `none` when there is one part only.
unfoldable pub split_2 : ℕ → Bytes → Option (Bytes × Bytes)
split_2 sep [] = none
split_2 sep (c ∷ s) =
    let rest = split_2 sep s in
    if c == sep then some ([], s) else elim rest [ none ↦ none | some (p, q) ↦ some (c ∷ p, q) ]

-- strings.HasPrefix(s, prefix)
unfoldable pub has_prefix : Bytes → Bytes → Bool
has_prefix s [] = true
has_prefix [] (b ∷ p) = false
has_prefix (c ∷ s) (b ∷ p) = (c == b) && has_prefix s p

pub split-part : (sep : ℕ) (p s : Bytes) → Lacks sep p → split sep (p ++ sep ∷ s) ≡ p ∷ split sep s
unfolding split
split-part sep [] s h = ground arith
split-part sep (c ∷ p) s h = ground (arith, split-part sep p s h.1)

pub split-last : (sep : ℕ) (p : Bytes) → Lacks sep p → split sep p ≡ p ∷ []
unfolding split
split-last sep [] h = refl
split-last sep (c ∷ p) h = ground (arith, split-last sep p h.1)

pub split_2-part : (sep : ℕ) (p s : Bytes) → Lacks sep p → split_2 sep (p ++ sep ∷ s) ≡ some (p, s)
unfolding split_2
split_2-part sep [] s h = ground arith
split_2-part sep (c ∷ p) s h = ground (arith, split_2-part sep p s h.1)

join-push : (sep c : ℕ) (ps : List Bytes) → ps ≢ [] → join sep (push c ps) ≡ c ∷ join sep ps
join-push sep c [] h = absurd (h refl)
join-push sep c (p ∷ []) h = refl
join-push sep c (p ∷ q ∷ ps) h = refl

split-ne-nil : (sep : ℕ) (s : Bytes) → split sep s ≢ []
unfolding split
split-ne-nil sep [] = λ e. cc
split-ne-nil sep (c ∷ s) = ground arith

join-nil_cons : (sep : ℕ) (ps : List Bytes) → ps ≢ [] → join sep ([] ∷ ps) ≡ sep ∷ join sep ps
join-nil_cons sep [] h = absurd (h refl)
join-nil_cons sep (p ∷ ps) h = refl

-- The parts of a text spell the text.
pub join-split : (sep : ℕ) (s : Bytes) → join sep (split sep s) ≡ s
unfolding split
join-split sep [] = refl
join-split sep (c ∷ s) = elim (Bool-cases (c == sep)) [
  | inl e ↦
      rw e (ground (arith, join-nil_cons sep (split sep s) (split-ne-nil sep s), join-split sep s))
  | inr e ↦
      rw e (ground (arith, join-push sep c (split sep s) (split-ne-nil sep s), join-split sep s))
]
