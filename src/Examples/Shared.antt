-- ===== src/Examples/Shared.antt =====
-- Dead letters, an outbox and calls written out.
use twitter_microservices.Prelude.{
  ℕ, ltb, ◌≤◌, ◌≡◌, refl, sym, ap, Bool, false, ◌||◌, ℤ, Option, none, some, [], ◌∷◌, map, codes,
  ◌=?◌, if◌then◌else◌, pos, arith,
}
use twitter_microservices.Shared.Errors.{Error, other, ok}
use twitter_microservices.Shared.Kafka.{Message, extract_event_id}
use twitter_microservices.Shared.Dlq.{dlq_message, replay_message}
use twitter_microservices.Shared.Dlq.Replay.{replay-dlq_message}
use twitter_microservices.Shared.Outbox.{
  Row, OutboxStore, outbox_message, mark_all, flush_body, flush_outbox, flush_with_retry,
  max_attempts,
}
use twitter_microservices.Shared.Outbox.Headers.{extract_event_id-outbox_message}
use twitter_microservices.Shared.Outbox.Flush.{
  MarksRows, is_id_of, flush_sends_all, flush_with_retry_bound,
}
use twitter_microservices.Shared.Ints.{same_int}
use twitter_microservices.Shared.Retry.{Options}
use twitter_microservices.Shared.Tx.{ExecTx}
use twitter_microservices.Examples.Tx.{committing, committing-IsAtomic}

abbrev refused : Message
refused = record {
  topic = codes "tweet.liked";
  partition = 2;
  offset = 41;
  key = codes "tw_1";
  value = codes "{";
  headers = record { key = codes "X-Event-ID"; value = codes "7" } ∷ [];
}

replay-dlq_message_example :
    replay_message (dlq_message refused (codes "malformed"))
    ≡ record refused { partition = 0; offset = 0 }
unfolding ◌=?◌
replay-dlq_message_example = replay-dlq_message refused (codes "malformed") (refl, tt)

abbrev row : ℕ → Row
row n = record {
  id = pos n;
  topic = codes "tweet.liked";
  key = [];
  payload = codes "{}";
  trace_id = codes "t";
}

extract_event_id-outbox_message_example : extract_event_id (outbox_message (row 12)) ≡ pos 12
extract_event_id-outbox_message_example = extract_event_id-outbox_message (row 12) (omega arith)

-- An outbox of two rows whose state says which IDs are sent.
abbrev outbox : ExecTx (ℤ → Bool) → OutboxStore (ℤ → Bool)
outbox exec_tx = record {
  exec_tx = exec_tx;
  get_pending_outbox = λ s. (ok (if s (pos 1) then [] else row 1 ∷ row 2 ∷ []), s);
  write_messages = λ ms. ok tt;
  mark_outbox_sent = λ row_id s. (ok tt, λ id. same_int row_id id || s id);
}

second_of : {A B : Type 0} (x y : A × B) → x ≡ y → x.1 ≡ y.1
second_of x y e = ap (λ p. p.1) e

outbox-MarksRows : (exec_tx : ExecTx (ℤ → Bool)) → MarksRows (outbox exec_tx)
outbox-MarksRows exec_tx = record {
  sent = λ s id. s id;
  reading = λ s t rows e id. ap (λ (f : ℤ → Bool). f id) (sym (second_of _ _ e));
  marking = λ row_id s t e id. ap (λ (f : ℤ → Bool). f id) (sym (second_of _ _ e));
}

abbrev none_sent : ℤ → Bool
none_sent id = false

-- What the flush leaves.
abbrev both_sent : ℤ → Bool
both_sent id = same_int (pos 2) id || (same_int (pos 1) id || false)

flush_sends_all_example :
    (OutboxStore.write_messages (outbox committing) (map outbox_message (row 1 ∷ row 2 ∷ []))
      ≡ ok tt)
    × ((id : ℤ) → both_sent id ≡ (is_id_of id (row 1 ∷ row 2 ∷ []) || none_sent id))
unfolding flush_outbox flush_body mark_all outbox-MarksRows
flush_sends_all_example =
    flush_sends_all (outbox committing) (outbox-MarksRows committing) (λ row_id s. refl)
      committing-IsAtomic none_sent none_sent both_sent (row 1) (row 2 ∷ []) refl refl

-- Two failures, then a success.
abbrev third_time : ℕ → Option Error
third_time n = if ltb n 2 then some (other n) else none

flush_with_retry_bound_example :
    (flush_with_retry max_attempts third_time (λ n. false) 0).0 ≤ max_attempts
flush_with_retry_bound_example = flush_with_retry_bound third_time (λ n. false)

abbrev zero_options : Options
zero_options = record {
  max_attempts = pos 0;
  base_delay = pos 0;
  max_delay = pos 0;
  retry_codes = [];
}

-- The calls that are unavailable, and the one behind them.
abbrev unavailable_until : ℕ → ℕ → Option ℕ
unavailable_until k n = if ltb n k then some 14 else some 5
