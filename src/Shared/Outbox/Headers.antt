-- ===== src/Shared/Outbox/Headers.antt =====
-- The event ID that consumers read is the row's ID.
use twitter_microservices.Prelude.{◌≡◌, ap, ℤ, IsInt64, ◌=?◌}
use twitter_microservices.Text.Decimal.{Parsed}
use twitter_microservices.Text.Decimal.RoundTrip.{parse_int-format_int}
use twitter_microservices.Shared.Kafka.{extract_event_id}
use twitter_microservices.Shared.Outbox.{Row, outbox_message}

-- A consumer reads from the message of a row the ID of the row, for every int64 ID, whatever the topic
-- and the trace.
pub extract_event_id-outbox_message :
    (row : Row) → IsInt64 row.id → extract_event_id (outbox_message row) ≡ row.id
unfolding extract_event_id outbox_message ◌=?◌
extract_event_id-outbox_message row h =
    ap (λ (p : Parsed ℤ). p.value) (parse_int-format_int row.id h)
