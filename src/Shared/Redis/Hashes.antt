-- ===== src/Shared/Redis/Hashes.antt =====
-- What Redis documents of the commands on hashes: HSET, HINCRBY and DEL, field by field.
use twitter_microservices.Prelude.{
  ℕ, suc, ◌+◌, ◌-◌, ◌&&◌, Option, none, some, List, [], ◌∷◌, Bytes, ◌=?◌, if◌then◌else◌, ◌≡◌, ℤ,
  pos, negsuc, ltb,
}
use twitter_microservices.Text.Decimal.{parse_int, format_int}
use twitter_microservices.Shared.Errors.{ok}
use twitter_microservices.Shared.Redis.{Redis, Command, set, del, hset, hincrby}

-- The last of the assignments to a field.
abbrev pub set_fields : Bytes → List (Bytes × Bytes) → Option Bytes → Option Bytes
set_fields f [] v = v
set_fields f ((g, x) ∷ fs) v = set_fields f fs (if g =? f then some x else v)

abbrev from_pos : ℕ → ℕ → ℤ
from_pos a b = if ltb a b then negsuc (b - a - 1) else pos (a - b)

abbrev pub add_int : ℤ → ℤ → ℤ
add_int (pos a) (pos b) = pos (a + b)
add_int (pos a) (negsuc b) = from_pos a (suc b)
add_int (negsuc a) (pos b) = from_pos b (suc a)
add_int (negsuc a) (negsuc b) = negsuc (suc (a + b))

-- A field that is not there counts as 0.
abbrev pub incremented : Option Bytes → ℤ → Bytes
incremented none d = format_int d
incremented (some v) d = format_int (add_int (parse_int 64 v).value d)

-- What a command does to the field of the hash at a key.
unfoldable pub on_field : Bytes → Bytes → Command → Option Bytes → Option Bytes
unfolding format_int parse_int
on_field k f (hset j fs) v = if j =? k then set_fields f fs v else v
on_field k f (hincrby j g d) v = if j =? k && g =? f then some (incremented v d) else v
on_field k f (del j) v = if j =? k then none else v
on_field k f (set j x ttl) v = if j =? k then none else v
on_field k f c v = v

unfoldable pub run_field : Bytes → Bytes → List Command → Option Bytes → Option Bytes
run_field k f [] v = v
run_field k f (c ∷ cs) v = run_field k f cs (on_field k f c v)

-- The first value under a field in the answer to HGETALL.
abbrev pub at_field : List (Bytes × Bytes) → Bytes → Option Bytes
at_field [] f = none
at_field ((g, x) ∷ h) f = if g =? f then some x else at_field h f

-- The documented behaviour of a server whose hash at a key has the value `value s key field`.
pub record KeepsHashes (r : Redis) : Type 0 where
  pub value : Redis.State r → Bytes → Bytes → Option Bytes
  pub exec_hashes :
      (cs : List Command) (s : Redis.State r) (k f : Bytes)
      → (Redis.exec r cs s).1 ≡ none
      → value (Redis.exec r cs s).0 k f ≡ run_field k f cs (value s k f)
  pub hgetall_hashes :
      (k : Bytes) (s : Redis.State r) (h : List (Bytes × Bytes))
      → Redis.hgetall r k s ≡ ok h
      → (f : Bytes) → at_field h f ≡ value s k f
