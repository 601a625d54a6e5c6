-- ===== src/Users/Lists/Walk.antt =====
-- A client that follows the cursors of ListFollowers or ListFollowing to the end.
use mathlib.Core.List.{Perm}
use twitter_microservices.Prelude.{
  ℕ, zero, suc, ◌≤◌, ◌<◌, ◌≡◌, ◌∙◌, inl, inr, refl, ap, subst, sym, Bool, Option, none, some, List,
  [], ◌∷◌, ◌++◌, append_assoc, Bytes, arith, Bool-cases, All, map, take, drop, take_all, length,
  length-drop, take-append-drop, IsInt64, ℤ, pos, leb,
}
use twitter_microservices.Shared.Errors.{Result, ok, non_empty}
use twitter_microservices.Shared.Walk.{walk, walk_last, walk_more}
use twitter_microservices.Users.Cursor.{decode_follow_cursor, decode-encode_follow_cursor}
use twitter_microservices.Users.Limits.{clamp_limit, clamp_limit_range}
use twitter_microservices.Users.Store.{Tables}
use twitter_microservices.Users.Follows.Counts.{Single}
use twitter_microservices.Users.Rows.{Listed, Side, key, keep, admits, ordered, joined, list_rows}
use twitter_microservices.Users.Lists.{UserListItem, item, cursor_after, next_cursor, list_side}
use twitter_microservices.Users.Lists.Order.{
  IsOrder, IsSorted, All_middle, All-ordered, ordered-IsSorted, ordered-perm, keep-after,
}
use twitter_microservices.Users.Lists.Joined.{length-joined, joined-AreApart, joined-IsInt64}
use twitter_microservices.Users.Lists.Pages.{
  take-snoc, short_page, full_page, keep-none, map-item-append, length-ordered,
}

module _ (text_lt : Bytes → Bytes → Bool) (side : Side) (id viewer : Bytes) (limit : ℤ)
    (t : Tables) where
  -- All rows of the list, in their order.
  abbrev all_rows : List Listed
  all_rows = ordered text_lt (joined side (non_empty viewer) id t t.follows)

  -- One page, by the cursor that the client sends.
  abbrev pub page : Option Bytes → Result (List UserListItem × Option Bytes)
  page cursor = (list_side text_lt side id viewer cursor limit t).0

  page-rest :
      (cursor : Option Bytes) (c : Option (ℤ × Bytes)) (rest : List Listed) (k : ℕ)
      → decode_follow_cursor cursor ≡ ok c
      → keep (admits text_lt c) all_rows ≡ rest
      → clamp_limit limit 20 100 ≡ pos k
      → page cursor ≡ ok (map item (take k rest), next_cursor (pos k) (take k rest))
  unfolding list_rows
  page-rest cursor c rest k d e l = rw (page, list_side, d, l, e)

  module _ (k : ℕ) (positive : 0 < k) (small : k ≤ 100) (clamped : clamp_limit limit 20 100 ≡ pos k)
      (o : IsOrder text_lt) (sorted : IsSorted text_lt o all_rows)
      (times : All (λ r. IsInt64 r.followed_at) all_rows) where
    -- From a cursor that leaves these rows, the client gets these rows.
    abbrev Gets : ℕ → Option Bytes → List Listed → Type 0
    Gets fuel cursor rest = walk page fuel cursor ≡ some (map item rest)

    -- What the cursor of a row means, and leaves.
    next_rest :
        (before post : List Listed) (r : Listed)
        → all_rows ≡ before ++ r ∷ post
        → (decode_follow_cursor (some (cursor_after r)) ≡ ok (some (key text_lt r)))
          × (keep (admits text_lt (some (key text_lt r))) all_rows ≡ post)
    next_rest before post r s = (
      decode-encode_follow_cursor r.followed_at r.user.id (
          All_middle (λ x. IsInt64 x.followed_at) before r post
            (subst (All (λ x. IsInt64 x.followed_at)) s times)),
      subst (λ l. keep (admits text_lt (some (key text_lt r))) l ≡ post) (sym s)
          (keep-after text_lt o before r post (subst (IsSorted text_lt o) s sorted)),
    )

    page_split :
        (rest pre : List Listed) (r : Listed)
        → take k rest ≡ pre ++ r ∷ []
        → rest ≡ pre ++ r ∷ drop k rest
    page_split rest pre r last =
        sym (take-append-drop k rest)
        ∙ ap (λ (q : List Listed). q ++ drop k rest) last
        ∙ append_assoc pre (r ∷ []) (drop k rest)

    after_page :
        (before rest pre : List Listed) (r : Listed)
        → all_rows ≡ before ++ rest
        → take k rest ≡ pre ++ r ∷ []
        → all_rows ≡ (before ++ pre) ++ r ∷ drop k rest
    after_page before rest pre r s last =
        s
        ∙ ap (λ (q : List Listed). before ++ q) (page_split rest pre r last)
        ∙ sym (append_assoc before pre (r ∷ drop k rest))

    -- A full page and what the client gets from its cursor.
    Gets-page :
        (fuel : ℕ) (cursor : Option Bytes) (c : Option (ℤ × Bytes)) (rest pre : List Listed)
        (r : Listed)
        → decode_follow_cursor cursor ≡ ok c
        → keep (admits text_lt c) all_rows ≡ rest
        → k ≤ length rest
        → take k rest ≡ pre ++ r ∷ []
        → Gets fuel (some (cursor_after r)) (drop k rest)
        → Gets (suc fuel) cursor rest
    Gets-page fuel cursor c rest pre r d e full last next =
        walk_more page fuel cursor (cursor_after r) (map item (take k rest))
          (map item (drop k rest))
          (page-rest cursor c rest k d e clamped ∙ rw (full_page k rest pre r small full last)) next
        ∙ ap some (
            sym (map-item-append (take k rest) (drop k rest))
            ∙ ap (map item) (take-append-drop k rest))

    drop_shorter :
        (rest : List Listed) (fuel : ℕ)
        → k ≤ length rest
        → length rest < suc fuel
        → length (drop k rest) < fuel
    drop_shorter rest fuel full h = omega (arith, length-drop k rest)

    walk-rest :
        (fuel : ℕ) (cursor : Option Bytes) (c : Option (ℤ × Bytes)) (before rest : List Listed)
        → all_rows ≡ before ++ rest
        → decode_follow_cursor cursor ≡ ok c
        → keep (admits text_lt c) all_rows ≡ rest
        → length rest < fuel
        → Gets fuel cursor rest
    walk-rest zero cursor c before rest s d e h = absurd (omega arith)
    walk-rest (suc fuel) cursor c before rest s d e h = elim (Bool-cases (leb k (length rest))) [
      | inr short ↦ walk_last page fuel cursor (map item rest) (
          page-rest cursor c rest k d e clamped
          ∙ rw (short_page k rest small (ground arith), take_all k rest (ground arith)))
      | inl full ↦
          let (pre, r, last) = take-snoc k rest positive (ground arith) in
          let s' = after_page before rest pre r s last in
          let (means, leaves) = next_rest (before ++ pre) (drop k rest) r s' in
          Gets-page fuel cursor c rest pre r d e (ground arith) last (
            walk-rest fuel (some (cursor_after r)) (some (key text_lt r))
              ((before ++ pre) ++ r ∷ []) (drop k rest)
              (s' ∙ sym (append_assoc (before ++ pre) (r ∷ []) (drop k rest))) means leaves
              (drop_shorter rest fuel (ground arith) h))
    ]

-- A client that follows the cursors of either list, with whatever limit, ends within one page more
-- than there are follows, and has then got every row of the list once, newest first, where the
-- texts are ordered, the pairs in follows are single and the times are int64 values.
pub list_walk_complete :
    (text_lt : Bytes → Bytes → Bool) (side : Side) (id viewer : Bytes) (limit : ℤ) (t : Tables)
    (fuel : ℕ)
    → (o : IsOrder text_lt) → Single t.follows
    → All (λ f. IsInt64 f.created_at) t.follows
    → length t.follows < fuel
    → (l : List Listed) × (walk (page text_lt side id viewer limit t) fuel none ≡ some (map item l))
      × Perm l (joined side (non_empty viewer) id t t.follows)
      × IsSorted text_lt o l
list_walk_complete text_lt side id viewer limit t fuel o single times enough =
    let rows = joined side (non_empty viewer) id t t.follows in
    let (k, clamped, positive, small) =
      clamp_limit_range limit 20 100 (omega arith) (omega arith) (omega arith) in
    let sorted =
      ordered-IsSorted text_lt o rows
        (joined-AreApart side (non_empty viewer) id t t.follows single) in
    (
      ordered text_lt rows,
      walk-rest text_lt side id viewer limit t k positive small clamped o sorted
          (All-ordered text_lt o (λ r. IsInt64 r.followed_at) rows
            (joined-IsInt64 side (non_empty viewer) id t t.follows times))
          fuel none none [] (ordered text_lt rows) refl (unfold decode_follow_cursor in refl)
          (keep-none text_lt (ordered text_lt rows))
          (omega (
            arith,
            length-ordered text_lt rows,
            length-joined side (non_empty viewer) id t t.follows,
          )),
      ordered-perm text_lt rows,
      sorted,
    )
