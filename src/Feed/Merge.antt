-- ===== src/Feed/Merge.antt =====
-- mergeDedupe of apps/feed-service/internal/feed/service.go.
use twitter_microservices.Prelude.{
  ◌≡◌, refl, sym, ◌∙◌, false, ◌||◌, List, [], ◌∷◌, ◌++◌, arith, Bytes, bytes_eq_iff, if◌then◌else◌,
  Bool-cases, inl, inr, append_assoc, append-nil,
}
use twitter_microservices.Feed.Ids.{mem?, Distinct, mem?-append}

-- One of the two loops: `out` is what stands in `seen` too, in order.
unfoldable pub add_unseen : List Bytes → List Bytes → List Bytes
add_unseen out [] = out
add_unseen out (id ∷ ids) = add_unseen (if mem? id out then out else out ++ id ∷ []) ids

unfoldable pub merge_dedupe : List Bytes → List Bytes → List Bytes
unfolding add_unseen
merge_dedupe a b = add_unseen (add_unseen [] a) b

mem?-add_unseen :
    (x : Bytes) (out ids : List Bytes) → mem? x (add_unseen out ids) ≡ (mem? x out || mem? x ids)
unfolding add_unseen
mem?-add_unseen x out [] = ground arith
mem?-add_unseen x out (id ∷ ids) = elim (Bool-cases (mem? id out)) [
  | inl old ↦ rw old (ground (arith, mem?-add_unseen x out ids, bytes_eq_iff id x))
  | inr new ↦
      rw new (ground (arith, mem?-add_unseen x (out ++ id ∷ []) ids, mem?-append x out (id ∷ [])))
]

Distinct-snoc :
    (out : List Bytes) (x : Bytes) → Distinct out → mem? x out ≡ false → Distinct (out ++ x ∷ [])
Distinct-snoc [] x d h = (refl, tt)
Distinct-snoc (y ∷ out) x d h = (
  ground (arith, mem?-append y out (x ∷ []), bytes_eq_iff x y, bytes_eq_iff y x),
  Distinct-snoc out x d.1 (ground arith),
)

add_unseen-Distinct : (out ids : List Bytes) → Distinct out → Distinct (add_unseen out ids)
unfolding add_unseen
add_unseen-Distinct out [] d = d
add_unseen-Distinct out (id ∷ ids) d = elim (Bool-cases (mem? id out)) [
  | inl old ↦ rw old (add_unseen-Distinct out ids d)
  | inr new ↦ rw new (add_unseen-Distinct (out ++ id ∷ []) ids (Distinct-snoc out id d new))
]

-- The merged list holds no entry twice.
pub merge_dedupe-Distinct : (a b : List Bytes) → Distinct (merge_dedupe a b)
unfolding merge_dedupe
merge_dedupe-Distinct a b = add_unseen-Distinct _ b (add_unseen-Distinct [] a tt)

-- It holds the entries of both lists and no others.
pub mem?-merge_dedupe :
    (x : Bytes) (a b : List Bytes) → mem? x (merge_dedupe a b) ≡ (mem? x a || mem? x b)
unfolding merge_dedupe
mem?-merge_dedupe x a b =
    ground (arith, mem?-add_unseen x (add_unseen [] a) b, mem?-add_unseen x [] a)

-- What the second list adds stands behind the first, which keeps its order.
add_unseen-append :
    (out ids : List Bytes) → (rest : List Bytes) × (add_unseen out ids ≡ out ++ rest)
unfolding add_unseen
add_unseen-append out [] = ([], sym (append-nil out))
add_unseen-append out (id ∷ ids) = elim (Bool-cases (mem? id out)) [
  | inl old ↦ rw old (add_unseen-append out ids)
  | inr new ↦
      let (rest, e) = add_unseen-append (out ++ id ∷ []) ids in
      (id ∷ rest, rw new (e ∙ append_assoc out (id ∷ []) rest))
]

Distinct-middle :
    (out ids : List Bytes) (id : Bytes) → Distinct (out ++ id ∷ ids) → mem? id out ≡ false
Distinct-middle [] ids id d = refl
Distinct-middle (y ∷ out) ids id d = ground (
  arith,
  mem?-append y out (id ∷ ids),
  bytes_eq_iff id y,
  bytes_eq_iff y id,
  Distinct-middle out ids id d.1,
)

add_unseen_new : (out ids : List Bytes) → Distinct (out ++ ids) → add_unseen out ids ≡ out ++ ids
unfolding add_unseen
add_unseen_new out [] d = sym (append-nil out)
add_unseen_new out (id ∷ ids) d =
    rw (Distinct-middle out ids id d)
      (add_unseen_new (out ++ id ∷ []) ids (rw append_assoc d) ∙ append_assoc out (id ∷ []) ids)

-- Distinct entries of the first list come first in the merged list, as they stand.
pub merge_dedupe-append :
    (a b : List Bytes) → Distinct a → (rest : List Bytes) × (merge_dedupe a b ≡ a ++ rest)
unfolding merge_dedupe
merge_dedupe-append a b d = rw (add_unseen_new [] a d) (add_unseen-append a b)
