-- ===== src/Feed/Fanout/Lists.antt =====
-- What the pipelines do to the list at one key.
use mathlib.Core.List.{reverse-cons, reverse-reverse, map-append}
use twitter_microservices.Prelude.{
  ◌≡◌, refl, sym, ap, ◌∙◌, Bool, true, false, List, [], ◌∷◌, ◌++◌, Bytes, arith, if◌then◌else◌,
  take, map, reverse, Bool-cases, inl, inr, ◌=?◌, bytes_eq_iff, append_assoc, bytes_eq_refl,
}
use twitter_microservices.Text.{has_prefix}
use twitter_microservices.Shared.Redis.{
  Command, lpush, ltrim, lrem, on_list, run_list, remove_first,
}
use twitter_microservices.Feed.Ids.{mem?, Distinct}
use twitter_microservices.Feed.Entry.{encode_tweet_entry}
use twitter_microservices.Feed.Keys.{following_key, following_limit, following_key-injective}
use twitter_microservices.Feed.Fanout.{
  push_commands, lrem_commands, lpush_commands, backfill_commands,
}

pub run_list-append :
    (k : Bytes) (cs ds : List Command) (l : List Bytes)
    → run_list k (cs ++ ds) l ≡ run_list k ds (run_list k cs l)
unfolding run_list
run_list-append k [] ds l = refl
run_list-append k (c ∷ cs) ds l = run_list-append k cs ds (on_list k c l)

on_list-lpush :
    (u f v : Bytes) (l : List Bytes)
    → on_list (following_key u) (lpush (following_key f) v) l ≡ (if f =? u then v ∷ l else l)
unfolding on_list
on_list-lpush u f v l = rw following_key-injective

pub on_list-ltrim :
    (u f : Bytes) (l : List Bytes)
    → on_list (following_key u) (ltrim (following_key f) 0 799) l
      ≡ (if f =? u then take following_limit l else l)
unfolding on_list
on_list-ltrim u f l = rw following_key-injective

-- The three commands for one follower.
push_one :
    (u entry f : Bytes) (fs : List Bytes) (l : List Bytes)
    → run_list (following_key u) (push_commands entry (f ∷ fs)) l
      ≡ run_list
          (following_key u)
          (push_commands entry fs)
          (if f =? u then take following_limit (entry ∷ l) else l)
unfolding push_commands run_list on_list
push_one u entry f fs l =
    ap (run_list (following_key u) (push_commands entry fs))
      (trimmed (on_list-lpush u f entry l) ∙ on_list-ltrim u f _ ∙ joined (f =? u))
  where
    trimmed :
        {a b : List Bytes}
        → a ≡ b
        → on_list (following_key u) (ltrim (following_key f) 0 799) a
          ≡ on_list (following_key u) (ltrim (following_key f) 0 799) b
    trimmed e = ap (on_list (following_key u) (ltrim (following_key f) 0 799)) e

    joined :
        (b : Bool)
        → (if b
            then take following_limit (if b then entry ∷ l else l)
            else (if b then entry ∷ l else l))
          ≡ (if b then take following_limit (entry ∷ l) else l)
    joined true = refl
    joined false = refl

-- A user who is not among the followers keeps the list.
push_others :
    (u entry : Bytes) (fs : List Bytes) (l : List Bytes)
    → mem? u fs ≡ false
    → run_list (following_key u) (push_commands entry fs) l ≡ l
push_others u entry [] l h = unfold push_commands run_list in refl
push_others u entry (f ∷ fs) l h = elim (Bool-cases (f =? u)) [
  | inl e ↦ ground arith
  | inr e ↦ push_one u entry f fs l ∙ rw e (push_others u entry fs l (ground arith))
]

-- A follower gets the entry at the head of a list cut to its limit; nobody else's list changes.
pub run_list-push_commands :
    (u entry : Bytes) (fs : List Bytes) (l : List Bytes)
    → Distinct fs
    → run_list (following_key u) (push_commands entry fs) l
      ≡ (if mem? u fs then take following_limit (entry ∷ l) else l)
run_list-push_commands u entry [] l d = unfold push_commands run_list in refl
run_list-push_commands u entry (f ∷ fs) l d = elim (Bool-cases (f =? u)) [
  | inl e ↦
      push_one u entry f fs l ∙ rw e (push_others u entry fs _ (ground (arith, bytes_eq_iff f u)))
  | inr e ↦ push_one u entry f fs l ∙ rw e (run_list-push_commands u entry fs l d.1)
]

-- The entries of a list that do not have the prefix.
pub without_prefix : Bytes → List Bytes → List Bytes
without_prefix prefix [] = []
without_prefix prefix (x ∷ xs) =
    if has_prefix x prefix then without_prefix prefix xs else x ∷ without_prefix prefix xs

on_list-lrem : (k v : Bytes) (l : List Bytes) → on_list k (lrem k 1 v) l ≡ remove_first v l
unfolding on_list
on_list-lrem k v l = rw bytes_eq_refl

remove_first_ne :
    (v x : Bytes) (l : List Bytes)
    → (x =? v) ≡ false
    → remove_first v (x ∷ l) ≡ x ∷ remove_first v l
unfolding remove_first
remove_first_ne v x l h = rw h

remove_first_self : (v : Bytes) (l : List Bytes) → remove_first v (v ∷ l) ≡ l
unfolding remove_first
remove_first_self v l = rw bytes_eq_refl

lrem_hit :
    (k prefix raw : Bytes) (raws l : List Bytes)
    → has_prefix raw prefix ≡ true
    → run_list k (lrem_commands k prefix (raw ∷ raws)) l
      ≡ run_list k (lrem_commands k prefix raws) (remove_first raw l)
unfolding lrem_commands run_list
lrem_hit k prefix raw raws l h =
    rw (h, lrem_commands) (ap (run_list k (lrem_commands k prefix raws)) (on_list-lrem k raw l))

lrem_miss :
    (k prefix raw : Bytes) (raws l : List Bytes)
    → has_prefix raw prefix ≡ false
    → run_list k (lrem_commands k prefix (raw ∷ raws)) l
      ≡ run_list k (lrem_commands k prefix raws) l
unfolding lrem_commands
lrem_miss k prefix raw raws l h = rw h

-- The LREM commands for a list never reach an entry without the prefix.
lrem_skips :
    (k prefix x : Bytes) (raws l : List Bytes)
    → has_prefix x prefix ≡ false
    → run_list k (lrem_commands k prefix raws) (x ∷ l)
      ≡ x ∷ run_list k (lrem_commands k prefix raws) l
lrem_skips k prefix x [] l h = unfold lrem_commands run_list in refl
lrem_skips k prefix x (raw ∷ raws) l h = elim (Bool-cases (has_prefix raw prefix)) [
  | inl e ↦
      let other : (x =? raw) ≡ false = ground (arith, bytes_eq_iff x raw) in
      lrem_hit k prefix raw raws (x ∷ l) e
      ∙ ap (run_list k (lrem_commands k prefix raws)) (remove_first_ne raw x l other)
      ∙ lrem_skips k prefix x raws (remove_first raw l) h
      ∙ ap (λ t. x ∷ t) (sym (lrem_hit k prefix raw raws l e))
  | inr e ↦
      lrem_miss k prefix raw raws (x ∷ l) e
      ∙ lrem_skips k prefix x raws l h
      ∙ ap (λ t. x ∷ t) (sym (lrem_miss k prefix raw raws l e))
]

-- The LREM commands computed from a list remove from it all entries with the prefix and no others.
pub run_list-lrem_commands :
    (k prefix : Bytes) (l : List Bytes)
    → run_list k (lrem_commands k prefix l) l ≡ without_prefix prefix l
unfolding without_prefix
run_list-lrem_commands k prefix [] = unfold lrem_commands run_list in refl
run_list-lrem_commands k prefix (x ∷ xs) = elim (Bool-cases (has_prefix x prefix)) [
  | inl e ↦
      rw (e, without_prefix)
        (lrem_hit k prefix x xs (x ∷ xs) e
          ∙ ap (run_list k (lrem_commands k prefix xs)) (remove_first_self x xs)
          ∙ run_list-lrem_commands k prefix xs)
  | inr e ↦
      rw (e, without_prefix)
        (lrem_miss k prefix x xs (x ∷ xs) e
          ∙ lrem_skips k prefix x xs xs e
          ∙ ap (λ t. x ∷ t) (run_list-lrem_commands k prefix xs))
]

on_list-lrem_other :
    (k j v : Bytes) (l : List Bytes) → (j =? k) ≡ false → on_list k (lrem j 1 v) l ≡ l
unfolding on_list
on_list-lrem_other k j v l h = rw h

-- LREM commands for another key change nothing.
pub lrem_commands_other :
    (k j prefix : Bytes) (raws l : List Bytes)
    → (j =? k) ≡ false
    → run_list k (lrem_commands j prefix raws) l ≡ l
unfolding run_list lrem_commands
lrem_commands_other k j prefix [] l h = refl
lrem_commands_other k j prefix (raw ∷ raws) l h = elim (Bool-cases (has_prefix raw prefix)) [
  | inl e ↦
      rw (e, lrem_commands)
        (ap (run_list k (lrem_commands j prefix raws)) (on_list-lrem_other k j raw l h)
          ∙ lrem_commands_other k j prefix raws l h)
  | inr e ↦ rw (e, lrem_commands) (lrem_commands_other k j prefix raws l h)
]

on_list-lpush_self : (k v : Bytes) (l : List Bytes) → on_list k (lpush k v) l ≡ v ∷ l
unfolding on_list
on_list-lpush_self k v l = rw bytes_eq_refl

-- The pushes put the entries in front, the last one first.
run_list-lpush_commands :
    (k : Bytes) (ids l : List Bytes)
    → run_list k (lpush_commands k ids) l ≡ map encode_tweet_entry (reverse ids) ++ l
unfolding run_list lpush_commands
run_list-lpush_commands k [] l = refl
run_list-lpush_commands k (id ∷ ids) l =
    lpush_first
    ∙ run_list-lpush_commands k ids (encode_tweet_entry id ∷ l)
    ∙ sym (
        ap (λ t. map encode_tweet_entry t ++ l) (reverse-cons id ids)
        ∙ ap (λ t. t ++ l) (map-append encode_tweet_entry (reverse ids) (id ∷ []))
        ∙ append_assoc (map encode_tweet_entry (reverse ids)) (encode_tweet_entry id ∷ []) l)
  where
    lpush_first :
        run_list k (lpush_commands k (id ∷ ids)) l
        ≡ run_list k (lpush_commands k ids) (encode_tweet_entry id ∷ l)
    lpush_first =
        ap (run_list k (lpush_commands k ids)) (on_list-lpush_self k (encode_tweet_entry id) l)

-- A backfill puts the encoded IDs in front of the list, newest first, and cuts it to its limit.
pub run_list-backfill_commands :
    (u : Bytes) (ids l : List Bytes)
    → run_list (following_key u) (backfill_commands (following_key u) ids) l
      ≡ take following_limit (map encode_tweet_entry ids ++ l)
unfolding backfill_commands run_list on_list
run_list-backfill_commands u ids l =
    run_list-append (following_key u) (lpush_commands (following_key u) (reverse ids)) _ l
    ∙ on_list-ltrim u u _
    ∙ rw (bytes_eq_refl u, run_list-lpush_commands, reverse-reverse)
