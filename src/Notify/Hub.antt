-- ===== src/Notify/Hub.antt =====
-- Hub of apps/notification-service/internal/notification/hub.go, within one process: the channels of
-- the open streams. A channel is a number; its buffer holds eight notifications. A send on a closed
-- channel and a second close are the panics of Go: `none`. Each operation holds the mutex from its
-- start to its end, so that a run is a sequence of operations.
pub mod Open
pub mod Run
use twitter_microservices.Prelude.{
  ℕ, ◌+◌, Bool, true, false, Option, none, some, List, [], ◌∷◌, ◌++◌, Bytes, ◌=?◌, ◌==◌,
  if◌then◌else◌, ltb, length,
}
use twitter_microservices.Notify.Store.{Notification}

-- chan db.Notification
pub record Channel : Type 0 where
  pub buffer : List Notification
  pub closed : Bool

abbrev pub capacity : ℕ
capacity = 8

-- The map `subs`, and the channels that were made.
pub record Hub : Type 0 where
  pub subs : Bytes → List ℕ
  pub channels : ℕ → Channel
  pub made : ℕ

abbrev pub set_subs : Bytes → List ℕ → (Bytes → List ℕ) → Bytes → List ℕ
set_subs user cs subs u = if u =? user then cs else subs u

abbrev pub set_channel : ℕ → Channel → (ℕ → Channel) → ℕ → Channel
set_channel c ch channels d = if d == c then ch else channels d

-- Subscribe: the new channel and the hub.
unfoldable pub subscribe : Bytes → Hub → ℕ × Hub
subscribe user h = (
  h.made,
  record {
    subs = set_subs user (h.subs user ++ h.made ∷ []) h.subs;
    channels = set_channel h.made (record { buffer = []; closed = false }) h.channels;
    made = h.made + 1;
  },
)

-- The first equal channel goes.
abbrev pub without : ℕ → List ℕ → List ℕ
without c [] = []
without c (d ∷ ds) = let rest = without c ds in if d == c then ds else d ∷ rest

abbrev pub unsubscribed : Bytes → ℕ → Hub → Hub
unsubscribed user c h = record {
  subs = set_subs user (without c (h.subs user)) h.subs;
  channels = set_channel c (record { buffer = (h.channels c).buffer; closed = true }) h.channels;
  made = h.made;
}

-- Unsubscribe
unfoldable pub unsubscribe : Bytes → ℕ → Hub → Option Hub
unsubscribe user c h = if (h.channels c).closed then none else some (unsubscribed user c h)

-- A send that does not block: a full buffer drops the notification.
abbrev pub offer : Notification → Channel → Channel
offer n ch =
    if ltb (length ch.buffer) capacity
    then record { buffer = ch.buffer ++ n ∷ []; closed = ch.closed }
    else ch

-- The loop of fanOutLocal.
unfoldable pub send_all : Notification → List ℕ → (ℕ → Channel) → Option (ℕ → Channel)
send_all n [] channels = some channels
send_all n (c ∷ cs) channels =
    let rest = send_all n cs (set_channel c (offer n (channels c)) channels) in
    if (channels c).closed then none else rest

-- fanOutLocal
unfoldable pub fan_out_local : Bytes → Notification → Hub → Option Hub
unfolding send_all
fan_out_local user n h = elim (send_all n (h.subs user) h.channels) [
  | none ↦ none
  | some channels ↦ some (record { subs = h.subs; channels = channels; made = h.made })
]

-- A read from a channel by its stream.
unfoldable pub receive : ℕ → Hub → Hub
receive c h = record {
  subs = h.subs;
  channels =
      set_channel c
        (elim (h.channels c).buffer [
          | [] ↦ h.channels c
          | _ ∷ ns ↦ record { buffer = ns; closed = (h.channels c).closed }
        ])
        h.channels;
  made = h.made;
}
