-- ===== src/Shared/Walk.antt =====
-- A client that asks for the page after each cursor, as the web client's lists do.
use twitter_microservices.Prelude.{ℕ, zero, suc, ◌≡◌, Option, none, some, List, ◌++◌, Bytes}
use twitter_microservices.Shared.Errors.{Result, ok, err}

module _ {A : Type 0} where
  abbrev pub prepend : List A → Option (List A) → Option (List A)
  prepend xs none = none
  prepend xs (some ys) = some (xs ++ ys)

  -- All the items of at most so many pages, or `none` if a page fails or the pages do not end.
  unfoldable pub walk :
      (Option Bytes → Result (List A × Option Bytes)) → ℕ → Option Bytes → Option (List A)
  walk page zero cursor = none
  walk page (suc fuel) cursor = elim (page cursor) [
    | err e ↦ none
    | ok (items, none) ↦ some items
    | ok (items, some c) ↦ prepend items (walk page fuel (some c))
  ]

module _ {A : Type 0} (page : Option Bytes → Result (List A × Option Bytes)) where
  pub walk_last :
      (fuel : ℕ) (cursor : Option Bytes) (items : List A)
      → page cursor ≡ ok (items, none)
      → walk page (suc fuel) cursor ≡ some items
  unfolding walk
  walk_last fuel cursor items e = rw (walk, e)

  pub walk_more :
      (fuel : ℕ) (cursor : Option Bytes) (c : Bytes) (items more : List A)
      → page cursor ≡ ok (items, some c)
      → walk page fuel (some c) ≡ some more
      → walk page (suc fuel) cursor ≡ some (items ++ more)
  unfolding walk
  walk_more fuel cursor c items more e h = rw (walk, e, h)
