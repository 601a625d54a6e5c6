-- ===== src/Users/Lists/Pages.antt =====
-- A page of ListFollowers or ListFollowing, full or not.
use twitter_microservices.Prelude.{
  ℕ, zero, suc, ◌≤◌, ◌<◌, ◌≡◌, ◌∙◌, refl, ap, Bool, true, false, none, some, List, [], ◌∷◌, ◌++◌,
  Bytes, arith, map, take, take_all, length, length-take, pos,
}
use twitter_microservices.Shared.Ints.{to_int32}
use twitter_microservices.Users.Rows.{Listed, int_eq, keep, admits, insert_row, ordered}
use twitter_microservices.Users.Lists.{UserListItem, item, last_row, cursor_after, next_cursor}

last_row-snoc : (l : List Listed) (r : Listed) → last_row (l ++ r ∷ []) ≡ some r
last_row-snoc [] r = refl
last_row-snoc (x ∷ []) r = refl
last_row-snoc (x ∷ y ∷ l) r = last_row-snoc (y ∷ l) r

-- A full page ends in a row.
pub take-snoc :
    (k : ℕ) (l : List Listed)
    → 0 < k
    → k ≤ length l
    → (pre : List Listed) × (r : Listed) × (take k l ≡ pre ++ r ∷ [])
take-snoc zero l p h = absurd (omega arith)
take-snoc (suc k) [] p h = absurd (omega arith)
take-snoc (suc zero) (x ∷ l) p h = ([], x, refl)
take-snoc (suc (suc k)) (x ∷ l) p h =
    let (pre, r, e) = take-snoc (suc k) l (omega arith) (omega arith) in
    (x ∷ pre, r, ap (λ (q : List Listed). x ∷ q) e)

same_length : (n k : ℕ) → k ≤ 100 → n ≤ 100 → n ≡ k → int_eq (to_int32 (pos n)) (pos k) ≡ true
same_length n k h h' e = ground arith

other_length : (n k : ℕ) → k ≤ 100 → n < k → int_eq (to_int32 (pos n)) (pos k) ≡ false
other_length n k h h' = ground arith

-- A page that is not full has no cursor, and a full one has that of its last row.
pub short_page :
    (k : ℕ) (rest : List Listed)
    → k ≤ 100
    → length rest < k
    → next_cursor (pos k) (take k rest) ≡ none
short_page k rest h n = rw (take_all k rest (omega arith), other_length (length rest) k h n)

pub full_page :
    (k : ℕ) (rest pre : List Listed) (r : Listed)
    → k ≤ 100
    → k ≤ length rest
    → take k rest ≡ pre ++ r ∷ []
    → next_cursor (pos k) (take k rest) ≡ some (cursor_after r)
full_page k rest pre r h n e = rw (
  same_length (length (take k rest)) k h (omega (arith, length-take k rest n))
      (length-take k rest n),
  ap last_row e ∙ last_row-snoc pre r,
)

pub keep-none :
    (text_lt : Bytes → Bytes → Bool) (l : List Listed) → keep (admits text_lt none) l ≡ l
keep-none text_lt [] = refl
keep-none text_lt (x ∷ l) = ap (λ (q : List Listed). x ∷ q) (keep-none text_lt l)

pub map-item-append : (xs ys : List Listed) → map item (xs ++ ys) ≡ map item xs ++ map item ys
map-item-append [] ys = refl
map-item-append (x ∷ xs) ys = ap (λ (q : List UserListItem). item x ∷ q) (map-item-append xs ys)

length-insert :
    (text_lt : Bytes → Bytes → Bool) (r : Listed) (l : List Listed)
    → length (insert_row text_lt r l) ≡ suc (length l)
length-insert text_lt r [] = refl
length-insert text_lt r (s ∷ l) = ground (arith, length-insert text_lt r l)

pub length-ordered :
    (text_lt : Bytes → Bytes → Bool) (l : List Listed) → length (ordered text_lt l) ≡ length l
length-ordered text_lt [] = refl
length-ordered text_lt (r ∷ l) =
    omega (arith, length-insert text_lt r (ordered text_lt l), length-ordered text_lt l)
