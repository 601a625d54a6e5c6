-- ===== src/Tweets/Hashtag.antt =====
-- Extract of apps/tweet-service/internal/hashtag/hashtag.go. A letter outside of ASCII ends a hashtag.
use twitter_microservices.Prelude.{
  ℕ, ◌+◌, Bool, false, ◌&&◌, ◌||◌, Option, none, some, List, [], ◌∷◌, ◌++◌, map, Bytes, ◌=?◌, ◌==◌,
  if◌then◌else◌, leb,
}

-- \w of the package regexp.
abbrev is_word : ℕ → Bool
is_word c = (leb 48 c && leb c 57) || (leb 65 c && leb c 90) || (leb 97 c && leb c 122) || c == 95

-- The text read so far behind a `#`, after one more byte.
abbrev after : Option Bytes → ℕ → Option Bytes
after none c = if c == 35 then some [] else none
after (some w) c = if is_word c then some (w ++ c ∷ []) else if c == 35 then some [] else none

abbrev match_of : Bytes → List Bytes
match_of [] = []
match_of (c ∷ w) = (35 ∷ c ∷ w) ∷ []

-- The match that one more byte ends.
abbrev ended : Option Bytes → ℕ → List Bytes
ended none c = []
ended (some w) c = if is_word c then [] else match_of w

-- FindAllString of `#\w+`.
unfoldable pub find_all : Option Bytes → Bytes → List Bytes
find_all none [] = []
find_all (some w) [] = match_of w
find_all state (c ∷ s) = ended state c ++ find_all (after state c) s

-- strings.ToLower on ASCII
abbrev lower : ℕ → ℕ
lower c = if leb 65 c && leb c 90 then c + 32 else c

abbrev pub seen_in : Bytes → List Bytes → Bool
seen_in x [] = false
seen_in x (y ∷ ys) = y =? x || seen_in x ys

-- The loop over the matches.
unfoldable pub add_tags : List Bytes → List Bytes → List Bytes
add_tags out [] = out
add_tags out (tag ∷ tags) = add_tags (if seen_in tag out then out else out ++ tag ∷ []) tags

-- Extract
unfoldable pub extract : Bytes → List Bytes
unfolding find_all add_tags
extract text = add_tags [] (map (map lower) (find_all none text))
