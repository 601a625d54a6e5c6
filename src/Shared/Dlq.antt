-- ===== src/Shared/Dlq.antt =====
-- Dead-letter queues: apps/shared/dlq/dlq.go, and the tool that replays them,
-- apps/dlq-replay/main.go.
pub mod Replay
use twitter_microservices.Prelude.{
  ℕ, ◌+◌, Bool, true, false, ◌||◌, Option, none, some, List, [], ◌∷◌, ◌++◌, Bytes, codes, ◌=?◌,
  if◌then◌else◌, pos,
}
use twitter_microservices.Text.Decimal.{format_int}
use twitter_microservices.Shared.Errors.{Error}
use twitter_microservices.Shared.Kafka.{Header, Message, Broker}

abbrev pub header_source_topic : Bytes
header_source_topic = codes "X-DLQ-Source-Topic"

abbrev pub header_source_partition : Bytes
header_source_partition = codes "X-DLQ-Source-Partition"

abbrev pub header_source_offset : Bytes
header_source_offset = codes "X-DLQ-Source-Offset"

abbrev pub header_error : Bytes
header_error = codes "X-DLQ-Error"

abbrev header : Bytes → Bytes → Header
header key value = record { key = key; value = value }

-- The headers that Write adds.
abbrev pub provenance : Message → Bytes → List Header
provenance msg reason =
    header header_source_topic msg.topic
    ∷ header header_source_partition (format_int (pos msg.partition))
    ∷ header header_source_offset (format_int (pos msg.offset))
    ∷ header header_error reason
    ∷ []

-- What Write sends; the topic is the writer's, and the broker fills in the place.
unfoldable pub dlq_message : Message → Bytes → Message
dlq_message msg reason = record {
  topic = [];
  partition = 0;
  offset = 0;
  key = msg.key;
  value = msg.value;
  headers = msg.headers ++ provenance msg reason;
}

-- headerValue: the first header of that name, or the empty text.
unfoldable pub header_value : List Header → Bytes → Bytes
header_value [] key = []
header_value (h ∷ hs) key = if h.key =? key then h.value else header_value hs key

-- The map dlqHeaders.
abbrev pub is_dlq_header : Bytes → Bool
is_dlq_header key =
    key =? header_source_topic
    || (key =? header_source_partition || (key =? header_source_offset || key =? header_error))

-- stripDLQHeaders
unfoldable pub strip_dlq_headers : List Header → List Header
strip_dlq_headers [] = []
strip_dlq_headers (h ∷ hs) =
    let rest = strip_dlq_headers hs in if is_dlq_header h.key then rest else h ∷ rest

-- The message that the tool writes for a dead letter.
unfoldable pub replay_message : Message → Message
unfolding header_value strip_dlq_headers
replay_message msg = record {
  topic = header_value msg.headers header_source_topic;
  partition = 0;
  offset = 0;
  key = msg.key;
  value = msg.value;
  headers = strip_dlq_headers msg.headers;
}

module _ (b : Broker) where
  open b use {State, write_messages, commit_messages}

  -- Write; `false` is a nil writer.
  unfoldable pub write : Bool → Message → Bytes → State → State
  unfolding dlq_message
  write false msg reason s = s
  write true msg reason s = (write_messages (dlq_message msg reason ∷ []) s).0

  -- The rest of a round behind the write.
  abbrev after_write : Message → State × Option Error → ℕ → State × ℕ
  after_write msg (s, some e) replayed = (s, replayed)
  after_write msg (s, none) replayed = ((commit_messages msg s).0, replayed + 1)

  -- One round of the loop in main, for a fetched message; the number counts the messages replayed.
  unfoldable pub replay_round : Message → State → ℕ → State × ℕ
  unfolding replay_message
  replay_round msg s replayed =
      if header_value msg.headers header_source_topic =? []
      then ((commit_messages msg s).0, replayed)
      else after_write msg (write_messages (replay_message msg ∷ []) s) replayed
