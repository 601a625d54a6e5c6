-- ===== src/Feed/Service/FirstPage.antt =====
-- What a first page shows.
use twitter_microservices.Prelude.{
  ℕ, zero, suc, ◌≡◌, ◌≤◌, ◌<◌, refl, ap, ◌∙◌, sym, ◌⊎◌, true, false, ◌-◌, Option, none, some, List,
  [], ◌∷◌, ◌++◌, Bytes, ◌=?◌, if◌then◌else◌, bytes_eq_refl, get_elem?, arith, ltb, length, take,
  Bool-cases, inl, inr, take_all, length-take-le,
}
use twitter_microservices.Shared.Errors.{Result, ok, err, ◌>>=◌}
use twitter_microservices.Feed.Ids.{Distinct}
use twitter_microservices.Feed.Merge.{merge_dedupe, merge_dedupe-append}
use twitter_microservices.Feed.Page.{cursor_at}
use twitter_microservices.Feed.Service.{
  Sources, fetch_celeb_feed_entries, cached_entries, following_page, cap, deliver,
}

take-append : (n : ℕ) (xs ys : List Bytes) → n ≤ length xs → take n (xs ++ ys) ≡ take n xs
take-append zero xs ys h = refl
take-append (suc n) [] ys h = absurd (omega arith)
take-append (suc n) (x ∷ xs) ys h = ap (λ t. x ∷ t) (take-append n xs ys (omega arith))

cursor_at_short :
    (l : List Bytes) (limit : ℕ) → ltb (length l) limit ≡ true → cursor_at l limit ≡ none
unfolding cursor_at
cursor_at_short l limit h = rw h

last_entry :
    (n : ℕ) (l : List Bytes)
    → length l ≡ suc n
    → (before : List Bytes) × (last : Bytes) × (l ≡ before ++ last ∷ [])
      × (get_elem? l n ≡ some last)
last_entry n [] h = absurd (omega arith)
last_entry zero (x ∷ []) h = ([], x, refl, refl)
last_entry zero (x ∷ y ∷ l) h = absurd (omega arith)
last_entry (suc n) (x ∷ l) h =
    let (before, last, e, g) = last_entry n l (omega arith) in
    (x ∷ before, last, ap (λ q. x ∷ q) e, g)

-- The cursor of a full page is its last entry.
full_cursor :
    (l : List Bytes) (limit : ℕ)
    → 0 < limit
    → length l ≡ limit
    → (before : List Bytes) × (last : Bytes) × (l ≡ before ++ last ∷ [])
      × (cursor_at l limit ≡ some last)
unfolding cursor_at
full_cursor l zero positive h = absurd (omega arith)
full_cursor l (suc n) positive h =
    let (before, last, e, g) = last_entry n l h in
    let index : suc n - 1 ≡ n = omega arith in
    let whole : ltb (suc n) (suc n) ≡ false = ground arith in
    (before, last, e, rw (cursor_at, h, whole, index) g)

module _ (s : Sources) where
  open s use {get_following_feed, marshal}

  cap-take : (limit : ℕ) (entries : List Bytes) → cap s limit entries ≡ take limit entries
  cap-take limit entries = elim (Bool-cases (ltb limit (length entries))) [
    | inl long ↦ rw long
    | inr short ↦ rw short (sym (take_all limit entries (ground arith)))
  ]

  merged_page :
      (user : Bytes) (limit : ℕ) (raw : List Bytes)
      → cached_entries s user none ≡ none
      → get_following_feed user none limit ≡ ok raw
      → following_page s user none limit ≡ (
          let entries = take limit (merge_dedupe raw (fetch_celeb_feed_entries s user)) in
          ok (
            entries,
            cursor_at entries limit,
            marshal (merge_dedupe raw (fetch_celeb_feed_entries s user)),
          ))
  unfolding following_page
  merged_page user limit raw miss got = rw (miss, following_page) (rw (got, cap-take limit _))

  -- A first page that is not cached, of a user whose own list fills the page with distinct
  -- entries, shows just that list and nothing of the followed celebrities.
  pub full_page_hides_celebrities :
      (user : Bytes) (limit : ℕ) (raw : List Bytes)
      → cached_entries s user none ≡ none
      → get_following_feed user none limit ≡ ok raw
      → Distinct raw
      → length raw ≡ limit
      → following_page s user none limit
        ≡ ok
            (raw, cursor_at raw limit, marshal (merge_dedupe raw (fetch_celeb_feed_entries s user)))
  full_page_hides_celebrities user limit raw miss got d full =
      let (rest, e) = merge_dedupe-append raw (fetch_celeb_feed_entries s user) d in
      let shown : take limit (merge_dedupe raw (fetch_celeb_feed_entries s user)) ≡ raw =
        ap (take limit) e
        ∙ take-append limit raw rest (omega arith)
        ∙ take_all limit raw (omega arith) in
      merged_page user limit raw miss got ∙ rw shown

  -- A cached page that is shorter than the limit has no next cursor.
  cached_page :
      (user : Bytes) (limit : ℕ) (cached : List Bytes)
      → cached_entries s user none ≡ some cached
      → length cached < limit
      → following_page s user none limit ≡ ok (cached, none, none)
  unfolding following_page cursor_at
  cached_page user limit cached hit short =
      let whole : cap s limit cached ≡ cached =
        cap-take limit cached ∙ take_all limit cached (omega arith) in
      rw (hit, following_page) (rw whole (ground arith))

  capped_within :
      (limit : ℕ) (r : Result (List Bytes × Option Bytes)) (entries : List Bytes)
      (next write : Option Bytes)
      → (r >>= deliver s limit) ≡ ok (entries, next, write)
      → (length entries ≤ limit) × (next ≡ cursor_at entries limit)
  capped_within limit (err e) entries next write h = absurd cc
  capped_within limit (ok (es, w)) entries next write h =
      let shown : cap s limit es ≡ entries = cc in
      (rw (← shown, cap-take limit es) (length-take-le limit es), cc)

  -- A page, cached or not, first or not, that is delivered for a positive limit holds at most
  -- `limit` entries; if it holds fewer it has no cursor, and if it is full its cursor is its last
  -- entry.
  pub page_within_limit :
      (user : Bytes) (cursor : Option Bytes) (limit : ℕ) (entries : List Bytes)
      (next write : Option Bytes)
      → 0 < limit
      → following_page s user cursor limit ≡ ok (entries, next, write)
      → ((length entries < limit) × (next ≡ none))
        ⊎ ((length entries ≡ limit)
            × ((before : List Bytes) × (last : Bytes) × (entries ≡ before ++ last ∷ [])
                × (next ≡ some last)))
  unfolding following_page
  page_within_limit user cursor limit entries next write positive h =
      let (within, at) = capped_within limit _ entries next write h in
      elim (Bool-cases (ltb (length entries) limit)) [
        | inl short ↦ inl (ground arith, at ∙ cursor_at_short entries limit short)
        | inr full ↦
            let size : length entries ≡ limit = ground arith in
            let (before, last, e, c) = full_cursor entries limit positive size in
            inr (size, (before, last, e, at ∙ c))
      ]

-- The server's answer to a read of the cache behind a write of it.
abbrev pub with_cache : Sources → Bytes → Bytes → Sources
with_cache s user b = record s {
  get_cached_following_feed = λ u. if u =? user then some b else s.get_cached_following_feed u;
}

module _ (s : Sources) where
  open s use {get_following_feed, marshal, unmarshal_entries}

  -- A first page that a request with a small limit has cached is what a request with a larger limit
  -- gets, without a next cursor, where the merged entries of the small one are fewer than the larger
  -- limit and are read back as they were written; without that cache the larger request, whose own
  -- list of distinct entries fills the page, gets that list and a next cursor.
  pub short_cache_hides_rest :
      (user : Bytes) (small limit : ℕ) (few raw : List Bytes) (b : Bytes)
      → cached_entries s user none ≡ none
      → get_following_feed user none small ≡ ok few
      → get_following_feed user none limit ≡ ok raw
      → Distinct raw
      → length raw ≡ limit
      → marshal (merge_dedupe few (fetch_celeb_feed_entries s user)) ≡ some b
      → unmarshal_entries b ≡ some (merge_dedupe few (fetch_celeb_feed_entries s user))
      → length (merge_dedupe few (fetch_celeb_feed_entries s user)) < limit
      → ((shown : List Bytes) × (next : Option Bytes) × (following_page s user none small
            ≡ ok (shown, next, some b)))
        × (following_page (with_cache s user b) user none limit
            ≡ ok (merge_dedupe few (fetch_celeb_feed_entries s user), none, none))
        × ((c : Bytes) × (write : Option Bytes) × (following_page s user none limit
              ≡ ok (raw, some c, write)))
  unfolding cached_entries
  short_cache_hides_rest user small limit few raw b miss got_few got d full written read short =
      let (before, c, e, at) = full_cursor raw limit (omega arith) full in
      let all : List Bytes = merge_dedupe few (fetch_celeb_feed_entries s user) in
      (
        (
          take small all,
          cursor_at (take small all) small,
          merged_page s user small few miss got_few ∙ rw written,
        ),
        cached_page (with_cache s user b) user limit all
            (rw (cached_entries, bytes_eq_refl user) read) short,
        (
          c,
          marshal (merge_dedupe raw (fetch_celeb_feed_entries s user)),
          full_page_hides_celebrities s user limit raw miss got d full ∙ rw at,
        ),
      )
