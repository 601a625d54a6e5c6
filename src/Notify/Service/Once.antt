-- ===== src/Notify/Service/Once.antt =====
-- An event has its effect once.
use twitter_microservices.Prelude.{
  ◌≡◌, ◌⊎◌, inl, inr, refl, ap, ◌∙◌, Bool, true, false, Option, none, some, ◌∷◌, Bytes, arith, ℤ,
  pos, negsuc,
}
use twitter_microservices.Shared.Errors.{Error, Result, ok, err, map_err}
use twitter_microservices.Shared.Ints.{is_positive}
use twitter_microservices.Shared.Tx.{IsAtomic}
use twitter_microservices.Notify.Store.{
  Notification, Tables, same_id, is_processed, is_event_processed, mark_event_processed,
  create_notification,
}
use twitter_microservices.Notify.Service.{Env, new_notification, create_tx, create}

-- What a call that is given a positive event ID can do: fail and change nothing; nothing, with nothing
-- to hand to the hub, if the event was processed before; or, if it was not, add the new notification,
-- hand it to the hub and record the event.
pub data Outcome (event_id : ℤ) (n : Notification) (s : Tables)
    (r : Result (Option Notification) × Tables) : Type 0 where
  failed : (e : Error) → r ≡ (err e, s) → Outcome event_id n s r
  skipped : is_processed event_id s.processed ≡ true → r ≡ (ok none, s) → Outcome event_id n s r
  added :
      is_processed event_id s.processed ≡ false
      → r ≡ (
        ok (some n),
        record { notifications = n ∷ s.notifications; processed = event_id ∷ s.processed },
      )
      → Outcome event_id n s r

module _ (env : Env) where
  open env use {exec_tx, read_fails, mark_fails, insert_fails}

  -- What the transaction does, if it does not fail.
  abbrev Body : ℤ → Notification → Tables → Result (Option Notification) × Tables → Type 0
  Body event_id n s r =
      ((e : Error) × (r.0 ≡ err e))
      ⊎ (((is_processed event_id s.processed ≡ true) × (r ≡ (ok none, s)))
          ⊎ ((is_processed event_id s.processed ≡ false)
              × (r ≡ (
                ok (some n),
                record { notifications = n ∷ s.notifications; processed = event_id ∷ s.processed },
              ))))

  create_tx_cases :
      (event_id : ℤ) (n : Notification) (s : Tables) (read mark insert : Option Error) (seen : Bool)
      → is_positive event_id ≡ true
      → read_fails ≡ read
      → mark_fails ≡ mark
      → insert_fails ≡ insert
      → is_processed event_id s.processed ≡ seen
      → Body event_id n s (create_tx env event_id n s)
  unfolding create_tx is_event_processed mark_event_processed create_notification
  create_tx_cases event_id n s (some e) mark insert seen p hr hm hi hs =
      inl (map_err e, rw (p, create_tx) (rw hr refl))
  create_tx_cases event_id n s none mark insert true p hr hm hi hs =
      inr (inl (hs, rw (p, create_tx) (rw hr (rw hs refl))))
  create_tx_cases event_id n s none (some e) insert false p hr hm hi hs =
      inl (map_err e, rw (p, create_tx) (rw hr (rw hs (rw hm refl))))
  create_tx_cases event_id n s none none (some e) false p hr hm hi hs =
      inl (map_err e, rw (p, create_tx) (rw hr (rw hs (rw hm (rw hi refl)))))
  create_tx_cases event_id n s none none none false p hr hm hi hs =
      inr (inr (hs, rw (p, create_tx) (rw hr (rw hs (rw hm (rw hi (rw hs refl)))))))

  committed_cases :
      (event_id : ℤ) (n : Notification) (s : Tables)
      → IsAtomic exec_tx
      → Body event_id n s (create_tx env event_id n s)
      → Outcome event_id n s (exec_tx (Option Notification) (create_tx env event_id n) s)
  committed_cases event_id n s tx (inl (e, bad)) = failed e (tx.rolls_back _ _ s e bad)
  committed_cases event_id n s tx (inr (inl (seen, r))) = elim (tx.commits _ _ s s none r) [
    | inl done ↦ skipped seen done
    | inr (e, refused) ↦ failed e refused
  ]
  committed_cases event_id n s tx (inr (inr (fresh, r))) = elim (tx.commits _ _ s _ (some n) r) [
    | inl done ↦ added fresh done
    | inr (e, refused) ↦ failed e refused
  ]

  -- Where the transaction is atomic and the event ID is positive, create fails and changes
  -- nothing, or skips an event that was processed, or adds the notification and records the event
  -- in one commit and hands the hub the notification that it added.
  pub create-Outcome :
      (event_id : ℤ) (user actor t : Bytes) (tweet : Option Bytes) (s : Tables)
      → IsAtomic exec_tx
      → is_positive event_id ≡ true
      → Outcome event_id
          (new_notification env user actor t tweet)
          s
          (create env event_id user actor t tweet s)
  unfolding create
  create-Outcome event_id user actor t tweet s tx p =
      committed_cases event_id (new_notification env user actor t tweet) s tx (
        create_tx_cases event_id (new_notification env user actor t tweet) s read_fails mark_fails
          insert_fails (is_processed event_id s.processed) p refl refl refl refl)

same_id_refl : (id : ℤ) → same_id id id ≡ true
same_id_refl (pos n) = ground arith
same_id_refl (negsuc n) = ground arith

-- The notification is about this user, actor, kind and tweet.
pub record IsAbout (user actor t : Bytes) (tweet : Option Bytes) (n : Notification) : Type 0 where
  pub to : n.user_id ≡ user
  pub by : n.actor_id ≡ actor
  pub kind : n.type_of ≡ t
  pub on : n.tweet_id ≡ tweet

-- From the first tables to the second, nothing has changed, or one notification about the event was
-- added and the event was recorded.
pub data Once (event_id : ℤ) (user actor t : Bytes) (tweet : Option Bytes) (s s' : Tables)
    : Type 0 where
  not_yet : s' ≡ s → Once event_id user actor t tweet s s'
  done_once :
      (n : Notification)
      → IsAbout user actor t tweet n
      → s' ≡ record { notifications = n ∷ s.notifications; processed = event_id ∷ s.processed }
      → Once event_id user actor t tweet s s'

module _ (env : Env) (event_id : ℤ) (user actor t : Bytes) (tweet : Option Bytes) where
  open env use {exec_tx}

  seen_unchanged :
      (s : Tables)
      → is_processed event_id s.processed ≡ true
      → Outcome event_id
          (new_notification env user actor t tweet)
          s
          (create env event_id user actor t tweet s)
      → (create env event_id user actor t tweet s).1 ≡ s
  seen_unchanged s seen (failed e r) = ap (λ (x : Result (Option Notification) × Tables). x.1) r
  seen_unchanged s seen (skipped h r) = ap (λ (x : Result (Option Notification) × Tables). x.1) r
  seen_unchanged s seen (added h r) = absurd cc

  first_call :
      (s s' : Tables)
      → s' ≡ s
      → Outcome event_id
          (new_notification env user actor t tweet)
          s'
          (create env event_id user actor t tweet s')
      → Once event_id user actor t tweet s (create env event_id user actor t tweet s').1
  first_call s s' same (failed e r) =
      not_yet (ap (λ (x : Result (Option Notification) × Tables). x.1) r ∙ same)
  first_call s s' same (skipped h r) =
      not_yet (ap (λ (x : Result (Option Notification) × Tables). x.1) r ∙ same)
  first_call s s' same (added h r) =
      done_once (new_notification env user actor t tweet)
        (record { to = refl; by = refl; kind = refl; on = refl })
        (ap (λ (x : Result (Option Notification) × Tables). x.1) r
          ∙ ap
              (λ (x : Tables). record {
                notifications = new_notification env user actor t tweet ∷ x.notifications;
                processed = event_id ∷ x.processed;
              })
              same)

  -- One more call keeps this, whatever fails in it.
  pub create-Once :
      (s s' : Tables)
      → IsAtomic exec_tx
      → is_positive event_id ≡ true
      → Once event_id user actor t tweet s s'
      → Once event_id user actor t tweet s (create env event_id user actor t tweet s').1
  create-Once s s' tx p (not_yet same) =
      first_call s s' same (create-Outcome env event_id user actor t tweet s' tx p)
  create-Once s s' tx p (done_once n about after) = done_once n about (
      seen_unchanged s' (rw after (ground (arith, same_id_refl event_id)))
        (create-Outcome env event_id user actor t tweet s' tx p)
      ∙ after)
