-- ===== src/Shared/Outbox/Flush.antt =====
-- What a flush leaves behind.
use twitter_microservices.Prelude.{
  ◌≡◌, ◌≤◌, ◌+◌, ◌⊎◌, inl, inr, refl, ap, ◌∙◌, Bool, true, false, ◌||◌, ℤ, Option, none, some, List,
  [], ◌∷◌, map, arith, ◌<◌, ℕ, zero, suc,
}
use twitter_microservices.Shared.Errors.{Error, Result, ok, err}
use twitter_microservices.Shared.Tx.{IsAtomic, ExecTx}
use twitter_microservices.Shared.Ints.{same_int}
use twitter_microservices.Shared.Kafka.{Message}
use twitter_microservices.Shared.Outbox.{
  Row, OutboxStore, mark_all, outbox_message, flush_body, flush_outbox, flush_with_retry,
  max_attempts,
}

module _ {S : Type 0} (store : OutboxStore S) where
  open store use {exec_tx, get_pending_outbox, write_messages}

  -- Where the transaction is atomic and the write to Kafka fails, the flush fails with that error
  -- and leaves the database as it was.
  pub unsent_stays_pending :
      IsAtomic exec_tx
      → (s t : S) (row : Row) (rows : List Row) (e : Error)
      → get_pending_outbox s ≡ (ok (row ∷ rows), t)
      → write_messages (map outbox_message (row ∷ rows)) ≡ err e
      → flush_outbox store true s ≡ (err e, s)
  unfolding flush_outbox
  unsent_stays_pending tx s t row rows e pending failed =
      tx.rolls_back Unit (flush_body store) s e (rw (pending, flush_body) (rw failed))

  -- No mark fails the transaction.
  mark_all-ok : (rows : List Row) (s : S) → (mark_all store rows s).0 ≡ ok tt
  unfolding mark_all
  mark_all-ok [] s = refl
  mark_all-ok (row ∷ rows) s = mark_all-ok rows _

  flush_body_sent :
      (s t : S) (row : Row) (rows : List Row)
      → get_pending_outbox s ≡ (ok (row ∷ rows), t)
      → write_messages (map outbox_message (row ∷ rows)) ≡ ok tt
      → flush_body store s ≡ (ok tt, (mark_all store (row ∷ rows) t).1)
  unfolding flush_body
  flush_body_sent s t row rows p sent =
      rw (p, flush_body)
        (rw sent (λ i. (mark_all-ok (row ∷ rows) t i, (mark_all store (row ∷ rows) t).1)))

  -- What a flush that succeeds has sent, and the state that it leaves.
  flush_succeeds :
      IsAtomic exec_tx
      → (s t v : S) (row : Row) (rows : List Row) → get_pending_outbox s ≡ (ok (row ∷ rows), t)
      → flush_outbox store true s ≡ (ok tt, v)
      → (write_messages (map outbox_message (row ∷ rows)) ≡ ok tt)
        × (v ≡ (mark_all store (row ∷ rows) t).1)
  unfolding flush_outbox
  flush_succeeds tx s t v row rows p h =
      by_answer (write_messages (map outbox_message (row ∷ rows))) refl
    where
      committed_state :
          (exec_tx Unit (flush_body store) s ≡ (ok tt, (mark_all store (row ∷ rows) t).1))
            ⊎ ((e : Error) × (exec_tx Unit (flush_body store) s ≡ (err e, s)))
          → v ≡ (mark_all store (row ∷ rows) t).1
      committed_state (inl done) = cc
      committed_state (inr (e, refused)) = cc

      by_answer :
          (w : Result (Unit {0}))
          → write_messages (map outbox_message (row ∷ rows)) ≡ w
          → (write_messages (map outbox_message (row ∷ rows)) ≡ ok tt)
            × (v ≡ (mark_all store (row ∷ rows) t).1)
      by_answer (err e) failed = absurd (cc (unsent_stays_pending tx s t row rows e p failed))
      by_answer (ok done) sent = (
        sent,
        committed_state (
            tx.commits Unit (flush_body store) s (mark_all store (row ∷ rows) t).1 tt
              (flush_body_sent s t row rows p sent)),
      )

  -- Where the messages are written and the transaction fails, the database is as it was.
  flush_uncommitted :
      IsAtomic exec_tx
      → (s t v : S) (row : Row) (rows : List Row) (e : Error)
      → get_pending_outbox s ≡ (ok (row ∷ rows), t)
      → write_messages (map outbox_message (row ∷ rows)) ≡ ok tt
      → flush_outbox store true s ≡ (err e, v)
      → v ≡ s
  unfolding flush_outbox
  flush_uncommitted tx s t v row rows e p sent h = by_commit (
      tx.commits Unit (flush_body store) s (mark_all store (row ∷ rows) t).1 tt
        (flush_body_sent s t row rows p sent))
    where
      by_commit :
          (exec_tx Unit (flush_body store) s ≡ (ok tt, (mark_all store (row ∷ rows) t).1))
            ⊎ ((e : Error) × (exec_tx Unit (flush_body store) s ≡ (err e, s)))
          → v ≡ s
      by_commit (inl done) = absurd cc
      by_commit (inr (e', refused)) = cc

-- What the SQL of the two queries says of the column sent_at: `sent s id` is whether it is set in the
-- row with that ID.
pub record MarksRows {S : Type 0} (store : OutboxStore S) : Type 0 where
  pub sent : S → ℤ → Bool
  pub reading :
      (s t : S) (rows : List Row)
      → OutboxStore.get_pending_outbox store s ≡ (ok rows, t)
      → (id : ℤ) → sent t id ≡ sent s id
  pub marking :
      (row_id : ℤ) (s t : S)
      → OutboxStore.mark_outbox_sent store row_id s ≡ (ok tt, t)
      → (id : ℤ) → sent t id ≡ (same_int row_id id || sent s id)

-- Whether an ID is that of one of the rows.
abbrev pub is_id_of : ℤ → List Row → Bool
is_id_of id [] = false
is_id_of id (row ∷ rows) = same_int row.id id || is_id_of id rows

module _ {S : Type 0} (store : OutboxStore S) (k : MarksRows store)
    (marks : (row_id : ℤ) (s : S) → (OutboxStore.mark_outbox_sent store row_id s).0 ≡ ok tt) where
  open store use {exec_tx, get_pending_outbox, write_messages, mark_outbox_sent}
  open k use {sent}

  mark_all-sent :
      (rows : List Row) (s : S) (id : ℤ)
      → sent (mark_all store rows s).1 id ≡ (is_id_of id rows || sent s id)
  unfolding mark_all
  mark_all-sent [] s id = refl
  mark_all-sent (row ∷ rows) s id =
      let one : sent (mark_outbox_sent row.id s).1 id ≡ (same_int row.id id || sent s id) =
        k.marking row.id s (mark_outbox_sent row.id s).1
          (λ i. (marks row.id s i, (mark_outbox_sent row.id s).1)) id in
      mark_all-sent rows (mark_outbox_sent row.id s).1 id ∙ ground (arith, one)

  -- Where the transaction is atomic and the database refuses no mark, a flush of pending rows that
  -- succeeds has written the messages of all of them to Kafka, and has marked as sent these rows and
  -- no others.
  pub flush_sends_all :
      IsAtomic exec_tx
      → (s t v : S) (row : Row) (rows : List Row) → get_pending_outbox s ≡ (ok (row ∷ rows), t)
      → flush_outbox store true s ≡ (ok tt, v)
      → (write_messages (map outbox_message (row ∷ rows)) ≡ ok tt)
        × ((id : ℤ) → sent v id ≡ (is_id_of id (row ∷ rows) || sent s id))
  flush_sends_all tx s t v row rows p h =
      let (written, state) = flush_succeeds store tx s t v row rows p h in
      (
        written,
        λ id.
            ap (λ (u : S). sent u id) state
            ∙ mark_all-sent (row ∷ rows) t id
            ∙ ap (λ b. is_id_of id (row ∷ rows) || b) (k.reading s t (row ∷ rows) p id),
      )

-- Where the messages are written and the atomic transaction then fails, the next flush that
-- succeeds, whatever its transaction and the Kafka writer do then, has written the messages of the
-- same rows to Kafka again.
pub uncommitted_rows_sent_again :
    {S : Type 0} (store : OutboxStore S) (exec_tx' : ExecTx S)
    (write_messages' : List Message → Result (Unit {0}))
    → IsAtomic (OutboxStore.exec_tx store)
    → IsAtomic exec_tx'
    → (s t v w : S) (row : Row) (rows : List Row) (e : Error)
    → OutboxStore.get_pending_outbox store s ≡ (ok (row ∷ rows), t)
    → OutboxStore.write_messages store (map outbox_message (row ∷ rows)) ≡ ok tt
    → flush_outbox store true s ≡ (err e, v)
    → flush_outbox (record store { exec_tx = exec_tx'; write_messages = write_messages' }) true v
      ≡ (ok tt, w)
    → write_messages' (map outbox_message (row ∷ rows)) ≡ ok tt
uncommitted_rows_sent_again store exec_tx' write_messages' tx tx' s t v w row rows e p sent failed
      again =
    let same : v ≡ s = flush_uncommitted store tx s t v row rows e p sent failed in
    (flush_succeeds (record store { exec_tx = exec_tx'; write_messages = write_messages' }) tx' v t
      w row rows (rw same p) again).0

flush_with_retry_le :
    (left : ℕ) (flush : ℕ → Option Error) (done : ℕ → Bool) (attempt : ℕ)
    → (flush_with_retry left flush done attempt).0 ≤ attempt + left
unfolding flush_with_retry
flush_with_retry_le zero flush done attempt = omega arith
flush_with_retry_le (suc left) flush done attempt =
    ground (arith, flush_with_retry_le left flush done (attempt + 1))

-- The flushes from `n` on fail `k` times in a row, and no wait behind them ends with the context.
abbrev pub FailsFrom : (ℕ → Option Error) → (ℕ → Bool) → ℕ → ℕ → Type 0
FailsFrom flush done n zero = Unit
FailsFrom flush done n (suc k) =
    ((e : Error) × (flush n ≡ some e) × (done n ≡ false)) × FailsFrom flush done (n + 1) k

flush_with_retry_ok :
    (k left : ℕ) (flush : ℕ → Option Error) (done : ℕ → Bool) (n : ℕ)
    → FailsFrom flush done n k
    → flush (n + k) ≡ none
    → k < left
    → flush_with_retry left flush done n ≡ (n + k + 1, true)
unfolding flush_with_retry
flush_with_retry_ok k zero flush done n f e h = absurd (omega arith)
flush_with_retry_ok zero (suc left) flush done n f e h =
    let here : n + 0 ≡ n = omega arith in rw here (ground (arith, rw here at e))
flush_with_retry_ok (suc k) (suc left) flush done n ((x, bad, waits), f) e h =
    let later : n + suc k ≡ n + 1 + k = omega arith in
    rw later (
      ground (
        arith,
        bad,
        waits,
        flush_with_retry_ok k left flush done (n + 1) f (rw later at e) (omega arith),
      ))

-- A tick of the outbox flushes at most four times, whatever the flushes answer.
pub flush_with_retry_bound :
    (flush : ℕ → Option Error) (done : ℕ → Bool)
    → (flush_with_retry max_attempts flush done 0).0 ≤ max_attempts
flush_with_retry_bound flush done = flush_with_retry_le max_attempts flush done 0

-- If fewer than four flushes of a tick fail and the next one succeeds, and no wait between them
-- ends with the context, the tick ends with that success.
pub flush_with_retry_succeeds :
    (k : ℕ) (flush : ℕ → Option Error) (done : ℕ → Bool)
    → FailsFrom flush done 0 k
    → flush k ≡ none
    → k < max_attempts
    → flush_with_retry max_attempts flush done 0 ≡ (k + 1, true)
flush_with_retry_succeeds k flush done f e h =
    let from_zero : 0 + k ≡ k = omega arith in
    flush_with_retry_ok k max_attempts flush done 0 f (rw from_zero e) h
    ∙ ap (λ (t : ℕ). (t + 1, true)) from_zero
