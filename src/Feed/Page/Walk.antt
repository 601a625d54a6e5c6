-- ===== src/Feed/Page/Walk.antt =====
-- A client that asks for page after page, each with the cursor of the page before.
use twitter_microservices.Prelude.{
  ℕ, zero, suc, ◌+◌, ◌-◌, ◌≤◌, ◌<◌, ◌≡◌, refl, sym, ap, ap₂, ◌∙◌, Option, none, some, List, [], ◌∷◌,
  ◌++◌, arith, Bytes, ◌=?◌, bytes_eq_refl, bytes_eq_of_true, ltb, leb, length, take, drop,
  get_elem?, length-drop, length-take, drop-nil, drop-drop, take-append-drop, take_all, Bool-cases,
  inl, inr,
}
use twitter_microservices.Feed.Ids.{Distinct, mem?-get_elem?}
use twitter_microservices.Feed.Page.{index_of, cut_page, page, cursor_at}

-- All entries that the client sees in at most so many pages.
pub walk : ℕ → List Bytes → Option Bytes → ℕ → List Bytes
walk zero ids cursor limit = []
walk (suc pages) ids cursor limit =
    let current = page ids cursor limit in
    elim (cursor_at current limit) [
      | none ↦ current
      | some c ↦ current ++ walk pages ids (some c) limit
    ]

take-drop_end : (limit n : ℕ) (xs : List Bytes) → length xs ≤ n → take limit (drop n xs) ≡ []
take-drop_end zero n xs h = refl
take-drop_end (suc l) n xs h = rw (drop-nil n xs h)

pub cut_page-take :
    (ids : List Bytes) (start limit : ℕ) → cut_page ids start limit ≡ take limit (drop start ids)
unfolding cut_page
cut_page-take ids start limit = elim (Bool-cases (leb (length ids) start)) [
  | inl past ↦ rw past (sym (take-drop_end limit start ids (ground arith)))
  | inr within ↦ rw within (ground (arith, take_all limit (drop start ids)))
]

get_elem?-take :
    (xs : List Bytes) (limit i : ℕ) → i < limit → get_elem? (take limit xs) i ≡ get_elem? xs i
get_elem?-take xs zero i h = absurd (omega arith)
get_elem?-take [] (suc l) i h = refl
get_elem?-take (x ∷ xs) (suc l) zero h = refl
get_elem?-take (x ∷ xs) (suc l) (suc i) h = get_elem?-take xs l i (omega arith)

get_elem?-drop : (xs : List Bytes) (n i : ℕ) → get_elem? (drop n xs) i ≡ get_elem? xs (n + i)
get_elem?-drop xs zero i = ap (get_elem? xs) (omega arith)
get_elem?-drop [] (suc n) i = refl
get_elem?-drop (x ∷ xs) (suc n) i =
    let e : suc n + i ≡ suc (n + i) = omega arith in rw e (get_elem?-drop xs n i)

index_of-get_elem? :
    (ids : List Bytes) (i : ℕ) (c : Bytes)
    → Distinct ids
    → get_elem? ids i ≡ some c
    → index_of c ids ≡ some i
unfolding index_of
index_of-get_elem? [] i c d h = cc
index_of-get_elem? (x ∷ xs) zero c d h = ground (arith, bytes_eq_refl c)
index_of-get_elem? (x ∷ xs) (suc i) c d h = elim (Bool-cases (x =? c)) [
  | inl e ↦ cc (d.0, bytes_eq_of_true x c e, mem?-get_elem? xs i c h)
  | inr e ↦ rw e (ground (arith, index_of-get_elem? xs i c d.1 h))
]

get_elem?-some : (xs : List Bytes) (i : ℕ) → i < length xs → (c : Bytes) × (get_elem? xs i ≡ some c)
get_elem?-some [] i h = absurd (omega arith)
get_elem?-some (x ∷ xs) zero h = (x, refl)
get_elem?-some (x ∷ xs) (suc i) h = get_elem?-some xs i (omega arith)

lt_length_of_get_elem? :
    (xs : List Bytes) (i : ℕ) (c : Bytes) → get_elem? xs i ≡ some c → i < length xs
lt_length_of_get_elem? [] i c h = cc
lt_length_of_get_elem? (x ∷ xs) zero c h = omega arith
lt_length_of_get_elem? (x ∷ xs) (suc i) c h = omega (arith, lt_length_of_get_elem? xs i c h)

-- A list of distinct entries: the cursor of a full page leads to the next one.
pub next_page :
    (ids : List Bytes) (start limit : ℕ) (c : Bytes)
    → Distinct ids
    → get_elem? ids (start + (limit - 1)) ≡ some c
    → 0 < limit
    → page ids (some c) limit ≡ take limit (drop (start + limit) ids)
unfolding page
next_page ids start limit c d h pos =
    rw (index_of-get_elem? ids _ c d h, page)
      (cut_page-take ids _ limit ∙ ap (λ n. take limit (drop n ids)) (omega arith))

-- The last page of a walk, and any other one.
walk_last :
    (pages : ℕ) (ids : List Bytes) (cursor : Option Bytes) (limit : ℕ)
    → cursor_at (page ids cursor limit) limit ≡ none
    → walk (suc pages) ids cursor limit ≡ page ids cursor limit
unfolding walk
walk_last pages ids cursor limit h = rw (h, walk)

walk_more :
    (pages : ℕ) (ids : List Bytes) (cursor : Option Bytes) (limit : ℕ) (c : Bytes)
    → cursor_at (page ids cursor limit) limit ≡ some c
    → walk (suc pages) ids cursor limit ≡ page ids cursor limit ++ walk pages ids (some c) limit
unfolding walk
walk_more pages ids cursor limit c h = rw (h, walk)

pub cursor_at_short : (l : List Bytes) (limit : ℕ) → length l < limit → cursor_at l limit ≡ none
unfolding cursor_at
cursor_at_short l limit h = ground arith

-- The cursor of a full page is the entry before the next page.
pub cursor_at_full :
    (ids : List Bytes) (start limit : ℕ)
    → 0 < limit
    → limit ≤ length (drop start ids)
    → (c : Bytes) × (cursor_at (take limit (drop start ids)) limit ≡ some c)
      × (get_elem? ids (start + (limit - 1)) ≡ some c)
unfolding cursor_at
cursor_at_full ids start limit pos full =
    let (c, e) = get_elem?-some (drop start ids) (limit - 1) (omega arith) in
    (
      c,
      ground (
        arith,
        length-take limit (drop start ids) full,
        get_elem?-take (drop start ids) limit (limit - 1) (omega arith),
      ),
      sym (get_elem?-drop ids start (limit - 1)) ∙ e,
    )

walk-drop :
    (pages : ℕ) (ids : List Bytes) (cursor : Option Bytes) (start limit : ℕ)
    → Distinct ids
    → 0 < limit
    → length ids < start + pages
    → page ids cursor limit ≡ take limit (drop start ids)
    → walk pages ids cursor limit ≡ drop start ids
walk-drop zero ids cursor start limit d pos fuel here =
    unfold walk in sym (drop-nil start ids (omega arith))
walk-drop (suc pages) ids cursor start limit d pos fuel here =
    elim (Bool-cases (ltb (length (drop start ids)) limit)) [
      | inl short ↦
          let whole : take limit (drop start ids) ≡ drop start ids =
            take_all limit _ (ground arith) in
          walk_last pages ids cursor limit
            (rw (here, whole) (cursor_at_short _ limit (ground arith)))
          ∙ here
          ∙ whole
      | inr full ↦
          let (c, at, elem) = cursor_at_full ids start limit pos (ground arith) in
          walk_more pages ids cursor limit c (rw here at)
          ∙ ap₂ (λ x y. x ++ y) here
              (walk-drop pages ids (some c) (start + limit) limit d pos (omega arith)
                (next_page ids start limit c d elem pos))
          ∙ ap (λ t. take limit (drop start ids) ++ t) (sym (drop-drop start limit ids))
          ∙ take-append-drop limit (drop start ids)
    ]

-- A client that follows the cursors of a list of distinct entries, from no cursor on and with a
-- positive limit, sees every entry once in the order of the list; one page more than entries is
-- enough.
pub walk_complete :
    (ids : List Bytes) (limit pages : ℕ)
    → Distinct ids
    → 0 < limit
    → length ids < pages
    → walk pages ids none limit ≡ ids
unfolding page
walk_complete ids limit pages d pos fuel =
    walk-drop pages ids none 0 limit d pos (omega arith) (cut_page-take ids 0 limit)

-- For a positive limit, where an entry stands again one page behind its first place, the page
-- behind it gives that entry as its cursor.
pub page_stuck :
    (ids : List Bytes) (i limit : ℕ) (c : Bytes)
    → 0 < limit
    → index_of c ids ≡ some i
    → get_elem? ids (i + limit) ≡ some c
    → cursor_at (page ids (some c) limit) limit ≡ some c
unfolding page
page_stuck ids i limit c pos first again =
    let within = lt_length_of_get_elem? ids (i + limit) c again in
    let (c', at, elem) =
      cursor_at_full ids (i + 1) limit pos (omega (arith, length-drop (i + 1) ids)) in
    let same : i + 1 + (limit - 1) ≡ i + limit = omega arith in
    rw (first, page)
      (rw (cut_page-take ids (i + 1) limit) (at ∙ sym elem ∙ ap (get_elem? ids) same ∙ again))
