-- ===== src/Shared/Outbox.antt =====
-- The transactional outbox: FlushOutbox, which apps/user-service/internal/user/service.go and
-- apps/tweet-service/internal/tweet/service.go have word for word, and flushWithRetry of
-- apps/shared/outbox/runner.go. Metrics and logging are left out.
pub mod Headers
pub mod Flush
use twitter_microservices.Prelude.{
  ℕ, zero, suc, ◌+◌, Bool, true, false, Option, none, some, List, [], ◌∷◌, ◌++◌, map, Bytes, codes,
  if◌then◌else◌, ℤ, ◌==◌,
}
use twitter_microservices.Text.Decimal.{format_int}
use twitter_microservices.Shared.Errors.{Error, Result, ok, err}
use twitter_microservices.Shared.Kafka.{Header, Message, event_id_header}
use twitter_microservices.Shared.Tx.{Tx, ExecTx, pure, fail, or_log, ◌>>=◌, ◌>>◌}

-- A row of the table outbox.
pub record Row : Type 0 where
  pub id : ℤ
  pub topic : Bytes
  pub key : Bytes
  pub payload : Bytes
  pub trace_id : Bytes

abbrev pub trace_parent_header : Bytes
trace_parent_header = codes "traceparent"

abbrev trace_headers : Bytes → List Header
trace_headers [] = []
trace_headers (c ∷ s) = record { key = trace_parent_header; value = c ∷ s } ∷ []

-- The message that is sent for a row.
unfoldable pub outbox_message : Row → Message
outbox_message row = record {
  topic = row.topic;
  partition = 0;
  offset = 0;
  key = row.key;
  value = row.payload;
  headers =
      record { key = event_id_header; value = format_int row.id } ∷ trace_headers row.trace_id;
}

-- The database, whose state is `S`, and what the Kafka writer answers during a flush.
pub record OutboxStore (S : Type 0) : Type 1 where
  pub exec_tx : ExecTx S
  pub get_pending_outbox : Tx S (List Row)
  pub write_messages : List Message → Result (Unit {0})
  pub mark_outbox_sent : ℤ → Tx S Unit

module _ {S : Type 0} (store : OutboxStore S) where
  open store use {exec_tx, get_pending_outbox, write_messages, mark_outbox_sent}

  unfoldable pub mark_all : List Row → Tx S Unit
  mark_all [] = pure tt
  mark_all (row ∷ rows) = do or_log (mark_outbox_sent row.id); mark_all rows

  -- The answer of the Kafka writer, which does not touch the database.
  abbrev answered : Result (Unit {0}) → Tx S Unit
  answered r s = (r, s)

  abbrev send : List Row → Tx S Unit
  send [] = pure tt
  send (row ∷ rows) = do
    answered (write_messages (map outbox_message (row ∷ rows)))
    mark_all (row ∷ rows)

  -- The body of the transaction.
  unfoldable pub flush_body : Tx S Unit
  unfolding mark_all
  flush_body = do rows ← get_pending_outbox; send rows

  -- FlushOutbox; `false` is a service without a Kafka writer.
  unfoldable pub flush_outbox : Bool → Tx S Unit
  unfolding flush_body
  flush_outbox false = pure tt
  flush_outbox true = exec_tx Unit flush_body

-- flushWithRetry: what its flushes answer, and whether the context ends during the wait behind each.
-- The result is the number of flushes, and whether the last one succeeded.
unfoldable pub flush_with_retry : ℕ → (ℕ → Option Error) → (ℕ → Bool) → ℕ → ℕ × Bool
flush_with_retry zero flush done attempt = (attempt, false)
flush_with_retry (suc left) flush done attempt =
    let again = flush_with_retry left flush done (attempt + 1) in
    elim (flush attempt) [
      | none ↦ (attempt + 1, true)
      | some e ↦
          if left == 0
          then (attempt + 1, false)
          else if done attempt
          then (attempt + 1, false)
          else again
    ]

abbrev pub max_attempts : ℕ
max_attempts = 4
