-- ===== src/Shared/Dlq/Replay.antt =====
-- A dead letter that is replayed is the message that was refused.
use twitter_microservices.Prelude.{
  ◌≡◌, refl, ap, ◌∙◌, false, List, [], ◌∷◌, ◌++◌, Bytes, ◌=?◌, arith, All, append-nil,
}
use twitter_microservices.Shared.Kafka.{Header, Message}
use twitter_microservices.Shared.Dlq.{
  header_source_topic, is_dlq_header, provenance, dlq_message, header_value, strip_dlq_headers,
  replay_message,
}

-- None of the headers is one that the dead-letter writer adds.
abbrev pub IsUnmarked : List Header → Type 0
IsUnmarked = All (λ h. is_dlq_header h.key ≡ false)

strip-append :
    (hs rest : List Header)
    → IsUnmarked hs
    → strip_dlq_headers (hs ++ rest) ≡ hs ++ strip_dlq_headers rest
unfolding strip_dlq_headers
strip-append [] rest u = refl
strip-append (h ∷ hs) rest u =
    rw (u.0, strip_dlq_headers) (ap (λ t. h ∷ t) (strip-append hs rest u.1))

value-append :
    (hs rest : List Header)
    → IsUnmarked hs
    → header_value (hs ++ rest) header_source_topic ≡ header_value rest header_source_topic
unfolding header_value
value-append [] rest u = refl
value-append (h ∷ hs) rest u = ground (arith, u.0, value-append hs rest u.1)

-- Replaying what the dead-letter writer sent gives the topic, the key, the value and the headers
-- of the refused message, if that message carried none of the writer's own headers.
pub replay-dlq_message :
    (msg : Message) (reason : Bytes)
    → IsUnmarked msg.headers
    → replay_message (dlq_message msg reason) ≡ record msg { partition = 0; offset = 0 }
unfolding replay_message dlq_message header_value strip_dlq_headers ◌=?◌
replay-dlq_message msg reason u = λ i. record {
  topic = value-append msg.headers (provenance msg reason) u i;
  partition = 0;
  offset = 0;
  key = msg.key;
  value = msg.value;
  headers = (strip-append msg.headers (provenance msg reason) u ∙ append-nil msg.headers) i;
}
