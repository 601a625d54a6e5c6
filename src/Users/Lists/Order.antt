-- ===== src/Users/Lists/Order.antt =====
-- The order of the rows of ListFollowers and ListFollowing, and what a cursor leaves of them.
use mathlib.Core.List.{Perm}
use mathlib.Core.List.Perm
use twitter_microservices.Prelude.{
  ◌≡◌, ◌≢◌, inl, inr, refl, Bool, true, false, ◌||◌, List, [], ◌∷◌, ◌++◌, Bytes, arith, Bool-cases,
  All, some, ℤ,
}
use twitter_microservices.Users.Rows.{
  Listed, int_lt, int_eq, key_lt, key, keep, admits, insert_row, ordered,
}

-- A comparison of texts is a strict total order.
pub record IsOrder (text_lt : Bytes → Bytes → Bool) : Type 0 where
  pub irrefl : (a : Bytes) → text_lt a a ≡ false
  pub trans : (a b c : Bytes) → text_lt a b ≡ true → text_lt b c ≡ true → text_lt a c ≡ true
  pub total : (a b : Bytes) → a ≢ b → (text_lt a b || text_lt b a) ≡ true

int_trans : (a b c : ℤ) → int_lt a b ≡ true → int_lt b c ≡ true → int_lt a c ≡ true
int_trans a b c h k = ground arith

int_eq_of_true : (a b : ℤ) → int_eq a b ≡ true → a ≡ b
int_eq_of_true a b h = ground arith

int_irrefl : (a : ℤ) → int_lt a a ≡ false
int_irrefl a = ground arith

int_total : (a b : ℤ) → int_lt a b ≡ false → int_lt b a ≡ false → int_eq a b ≡ true
int_total a b h k = ground arith

pub All_middle :
    {A : Type 0} (P : A → Type 0) (pre : List A) (c : A) (post : List A)
    → All P (pre ++ c ∷ post)
    → P c
All_middle P [] c post (h, hs) = h
All_middle P (x ∷ pre) c post (h, hs) = All_middle P pre c post hs

-- The IDs of the rows are different.
abbrev pub AreApart : List Listed → Type 0
AreApart [] = Unit
AreApart (r ∷ l) = All (λ s. r.user.id ≢ s.user.id) l × AreApart l

module _ (text_lt : Bytes → Bytes → Bool) (o : IsOrder text_lt) where
  abbrev lt : ℤ × Bytes → ℤ × Bytes → Bool
  lt = key_lt text_lt

  lt_irrefl : (a : ℤ × Bytes) → lt a a ≡ false
  lt_irrefl (at, id) = ground (arith, int_irrefl at, o.irrefl id)

  lt_trans : (a b c : ℤ × Bytes) → lt a b ≡ true → lt b c ≡ true → lt a c ≡ true
  lt_trans (i, a) (j, b) (k, c) h h' =
      ground (arith, int_trans i j k, int_eq_of_true i j, int_eq_of_true j k, o.trans a b c)

  lt_total : (a b : ℤ × Bytes) → a.1 ≢ b.1 → lt a b ≡ false → lt b a ≡ true
  lt_total (i, a) (j, b) n h =
      ground (arith, int_total i j, int_total j i, int_eq_of_true i j, o.total a b n)

  -- Each row is before those behind it.
  abbrev pub IsSorted : List Listed → Type 0
  IsSorted [] = Unit
  IsSorted (r ∷ l) = All (λ s. lt (key text_lt s) (key text_lt r) ≡ true) l × IsSorted l

  All-insert :
      (P : Listed → Type 0) (r : Listed) (l : List Listed)
      → P r
      → All P l
      → All P (insert_row text_lt r l)
  All-insert P r [] h hs = (h, tt)
  All-insert P r (s ∷ l) h (k, ks) = elim (Bool-cases (lt (key text_lt r) (key text_lt s))) [
    | inl later ↦ rw later (k, All-insert P r l h ks)
    | inr first ↦ rw first (h, (k, ks))
  ]

  pub All-ordered : (P : Listed → Type 0) (l : List Listed) → All P l → All P (ordered text_lt l)
  All-ordered P [] hs = tt
  All-ordered P (r ∷ l) (h, hs) = All-insert P r (ordered text_lt l) h (All-ordered P l hs)

  below :
      (r s : Listed) (l : List Listed)
      → lt (key text_lt s) (key text_lt r) ≡ true
      → All (λ x. lt (key text_lt x) (key text_lt s) ≡ true) l
      → All (λ x. lt (key text_lt x) (key text_lt r) ≡ true) l
  below r s [] h hs = tt
  below r s (x ∷ l) h (k, ks) =
      (lt_trans (key text_lt x) (key text_lt s) (key text_lt r) k h, below r s l h ks)

  insert-IsSorted :
      (r : Listed) (l : List Listed)
      → All (λ s. r.user.id ≢ s.user.id) l
      → IsSorted l
      → IsSorted (insert_row text_lt r l)
  insert-IsSorted r [] n h = (tt, tt)
  insert-IsSorted r (s ∷ l) (n, ns) (h, hs) =
      elim (Bool-cases (lt (key text_lt r) (key text_lt s))) [
        | inl later ↦ rw later (
          All-insert (λ x. lt (key text_lt x) (key text_lt s) ≡ true) r l later h,
          insert-IsSorted r l ns hs,
        )
        | inr first ↦
            let s_below = lt_total (key text_lt r) (key text_lt s) n first in
            rw first ((s_below, below r s l s_below h), (h, hs))
      ]

  pub ordered-IsSorted : (l : List Listed) → AreApart l → IsSorted (ordered text_lt l)
  ordered-IsSorted [] a = tt
  ordered-IsSorted (r ∷ l) (n, ns) =
      insert-IsSorted r (ordered text_lt l) (All-ordered (λ s. r.user.id ≢ s.user.id) l n)
        (ordered-IsSorted l ns)

  lt_asymm : (a b : ℤ × Bytes) → lt a b ≡ true → lt b a ≡ false
  lt_asymm a b h = elim (Bool-cases (lt b a)) [
    | inr fine ↦ fine
    | inl both ↦ absurd (ground (arith, lt_trans a b a h both, lt_irrefl a))
  ]

  keep-behind :
      (c : Listed) (l : List Listed)
      → All (λ x. lt (key text_lt x) (key text_lt c) ≡ true) l
      → keep (admits text_lt (some (key text_lt c))) l ≡ l
  keep-behind c [] h = refl
  keep-behind c (x ∷ l) (h, hs) = rw (h, keep-behind c l hs)

  -- The cursor of a row leaves exactly the rows behind it.
  pub keep-after :
      (pre : List Listed) (c : Listed) (post : List Listed)
      → IsSorted (pre ++ c ∷ post)
      → keep (admits text_lt (some (key text_lt c))) (pre ++ c ∷ post) ≡ post
  keep-after [] c post (h, hs) = rw (lt_irrefl (key text_lt c), keep-behind c post h)
  keep-after (r ∷ pre) c post (h, hs) =
      rw (lt_asymm (key text_lt c) (key text_lt r) (All_middle _ pre c post h))
        (keep-after pre c post hs)

insert_row-perm :
    (text_lt : Bytes → Bytes → Bool) (r : Listed) (l : List Listed)
    → Perm (insert_row text_lt r l) (r ∷ l)
insert_row-perm text_lt r [] = Perm.refl (r ∷ [])
insert_row-perm text_lt r (s ∷ l) =
    elim (Bool-cases (key_lt text_lt (key text_lt r) (key text_lt s))) [
      | inl later ↦
          rw later (Perm.trans (Perm.cons s (insert_row-perm text_lt r l)) (Perm.swap r s l))
      | inr first ↦ rw first (Perm.refl (r ∷ s ∷ l))
    ]

-- Ordering loses no row and makes none.
pub ordered-perm : (text_lt : Bytes → Bytes → Bool) (l : List Listed) → Perm (ordered text_lt l) l
ordered-perm text_lt [] = Perm.refl []
ordered-perm text_lt (r ∷ l) =
    Perm.trans (insert_row-perm text_lt r (ordered text_lt l))
      (Perm.cons r (ordered-perm text_lt l))
