-- ===== src/Shared/Redis.antt =====
-- The Redis server as a parameter: the commands that the services send, and what its
-- documentation says of the LIST commands that the feed relies on.
pub mod Hashes
use twitter_microservices.Prelude.{
  ℕ, zero, suc, Option, none, List, [], ◌∷◌, ◌++◌, Bytes, ◌=?◌, if◌then◌else◌, take, drop, ◌≡◌, ℤ,
  pos, negsuc,
}
use twitter_microservices.Shared.Errors.{Error, Result, ok}

-- The commands that change the server. A weight is a count of tenths; times are in seconds.
pub data Command : Type 0 where
  set : Bytes → Bytes → ℕ → Command
  del : Bytes → Command
  lpush rpush : Bytes → Bytes → Command
  ltrim : Bytes → ℕ → ℕ → Command
  lrem : Bytes → ℕ → Bytes → Command
  expire : Bytes → ℕ → Command
  hset : Bytes → List (Bytes × Bytes) → Command
  hincrby : Bytes → Bytes → ℤ → Command
  zincrby : Bytes → ℕ → Bytes → Command
  sadd srem : Bytes → Bytes → Command

-- The client as the services use it. `exec` is a pipeline: it sends all its commands and returns the
-- first error.
pub record Redis : Type 1 where
  pub State : Type 0
  pub exec : List Command → State → State × Option Error
  pub exists_key : Bytes → State → Result ℕ
  pub get : Bytes → State → Result Bytes
  pub hget_int64 : Bytes → Bytes → State → ℤ × Option Error
  pub hget : Bytes → Bytes → State → Result Bytes
  pub smembers : Bytes → State → Result (List Bytes)
  pub hgetall : Bytes → State → Result (List (Bytes × Bytes))
  pub lrange : Bytes → ℕ → ℤ → State → Result (List Bytes)

-- LREM key 1 element: the first occurrence goes.
unfoldable pub remove_first : Bytes → List Bytes → List Bytes
remove_first v [] = []
remove_first v (x ∷ xs) = if x =? v then xs else x ∷ remove_first v xs

-- LREM key n element, n positive.
abbrev remove_times : ℕ → Bytes → List Bytes → List Bytes
remove_times zero v l = l
remove_times (suc n) v l = remove_times n v (remove_first v l)

-- What a command does to the LIST at a key: LPUSH, RPUSH, LTRIM, LREM, DEL and SET, as
-- documented.
unfoldable pub on_list : Bytes → Command → List Bytes → List Bytes
on_list k (lpush j v) l = if j =? k then v ∷ l else l
on_list k (rpush j v) l = if j =? k then l ++ v ∷ [] else l
on_list k (ltrim j a b) l = if j =? k then drop a (take (suc b) l) else l
on_list k (lrem j n v) l = if j =? k then remove_times n v l else l
on_list k (del j) l = if j =? k then [] else l
on_list k (set j v ttl) l = if j =? k then [] else l
on_list k c l = l

unfoldable pub run_list : Bytes → List Command → List Bytes → List Bytes
run_list k [] l = l
run_list k (c ∷ cs) l = run_list k cs (on_list k c l)

-- The documented behaviour of a server whose LIST at a key is `lists s key`.
pub record KeepsLists (r : Redis) : Type 0 where
  pub lists : Redis.State r → Bytes → List Bytes
  pub exec_lists :
      (cs : List Command) (s : Redis.State r) (k : Bytes)
      → (Redis.exec r cs s).1 ≡ none
      → lists (Redis.exec r cs s).0 k ≡ run_list k cs (lists s k)
  pub lrange_lists :
      (k : Bytes) (a b : ℕ) (s : Redis.State r) (l : List Bytes)
      → Redis.lrange r k a (pos b) s ≡ ok l
      → l ≡ drop a (take (suc b) (lists s k))
  pub lrange_whole :
      (k : Bytes) (s : Redis.State r) (l : List Bytes)
      → Redis.lrange r k 0 (negsuc 0) s ≡ ok l
      → l ≡ lists s k
