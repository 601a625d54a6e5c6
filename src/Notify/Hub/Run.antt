-- ===== src/Notify/Hub/Run.antt =====
-- The runs of the hub of apps/notification-service/internal/notification/hub.go, and that none panics.
use twitter_microservices.Prelude.{ℕ, ◌≡◌, true, false, Option, some, [], Bytes}
use twitter_microservices.Notify.Store.{Notification}
use twitter_microservices.Notify.Hub.{
  Hub, subscribe, unsubscribed, unsubscribe, fan_out_local, receive,
}
use twitter_microservices.Notify.Hub.Open.{
  is_in, IsSound, none_left, fan_out_local-IsSound, subscribe-IsSound, unsubscribe-IsSound,
  receive-IsSound,
}

abbrev pub new_hub : Hub
new_hub = record { subs = λ u. []; channels = λ c. record { buffer = []; closed = true }; made = 0 }

-- The runs of the hub: streams open, read and end, and notifications arrive, in any order. A stream
-- unsubscribes a channel that is registered for its user.
pub data Run : Hub → Type 0 where
  start : Run new_hub
  opens : (h : Hub) (user : Bytes) → Run h → Run (subscribe user h).1
  reads : (h : Hub) (c : ℕ) → Run h → Run (receive c h)
  ends :
      (h h' : Hub) (user : Bytes) (c : ℕ)
      → Run h
      → is_in c (h.subs user) ≡ true
      → unsubscribe user c h ≡ some h'
      → Run h'
  arrives :
      (h h' : Hub) (user : Bytes) (n : Notification)
      → Run h
      → fan_out_local user n h ≡ some h'
      → Run h'

some_same :
    {A : Type 0} (P : A → Type 0) (r : Option A) (a : A)
    → r ≡ some a
    → (b : A) × (r ≡ some b) × P b
    → P a
some_same P r a e (b, q, p) = let same : b ≡ a = cc in rw same at p

Run-IsSound : (h : Hub) → Run h → IsSound h
Run-IsSound _ start = record {
  open_subs = λ u c i. absurd cc;
  made_subs = λ u c i. absurd cc;
  one_user = λ u v c i j. absurd cc;
  distinct = λ u. tt;
}
Run-IsSound _ (opens h user r) = subscribe-IsSound user h (Run-IsSound h r)
Run-IsSound _ (reads h c r) = receive-IsSound c h (Run-IsSound h r)
Run-IsSound _ (ends h' h user c r i e) = some_same IsSound (unsubscribe user c h') h e (
    let (q, s) = unsubscribe-IsSound user c h' (Run-IsSound h' r) i in
    (unsubscribed user c h', q, s))
Run-IsSound _ (arrives h' h user n r e) =
    some_same IsSound (fan_out_local user n h') h e
      (fan_out_local-IsSound user n h' (Run-IsSound h' r))

-- After any run of the hub, handing a notification to all the streams of a user does not panic: no
-- send meets a closed channel.
pub Run-fan_out_local :
    (h : Hub) (user : Bytes) (n : Notification)
    → Run h
    → (h' : Hub) × (fan_out_local user n h ≡ some h')
Run-fan_out_local h user n r =
    let (h', e, s) = fan_out_local-IsSound user n h (Run-IsSound h r) in (h', e)

-- After any run of the hub, the end of a stream whose channel is registered for its user does not
-- panic, and the channel is registered for nobody behind it.
pub Run-unsubscribe :
    (h : Hub) (user other : Bytes) (c : ℕ)
    → Run h
    → is_in c (h.subs user) ≡ true
    → (h' : Hub) × (unsubscribe user c h ≡ some h') × (is_in c (h'.subs other) ≡ false)
Run-unsubscribe h user other c r i =
    let (e, s) = unsubscribe-IsSound user c h (Run-IsSound h r) i in
    (unsubscribed user c h, e, none_left user other c h (Run-IsSound h r) i)
