-- ===== src/Feed/Consumer/Delivery.antt =====
-- What the loop guarantees about delivery.
use twitter_microservices.Prelude.{
  ℕ, ◌≡◌, inl, inr, refl, ap, ◌∙◌, ◌<◌, All, All-append, Bool-cases, Bool, true, false, List, [],
  ◌∷◌, ◌++◌, arith, ℤ,
}
use twitter_microservices.Shared.Errors.{Error, unmarshal, Result, ok, err}
use twitter_microservices.Shared.Events.{Unmarshal}
use twitter_microservices.Shared.Kafka.{Message, extract_event_id}
use twitter_microservices.Feed.Dispatch.{Action, dispatch}
use twitter_microservices.Feed.Consumer.{
  Effect, acted, dead_lettered, marked, committed, settle, is_positive, round, run, finish,
}

-- dispatch fails only on a payload that cannot be read.
dispatch_error :
    (u : Unmarshal) (now : ℤ) (msg : Message) (e : Error)
    → dispatch u now msg ≡ err e
    → e ≡ unmarshal
unfolding dispatch
dispatch_error u now msg e h = ground arith

-- A message whose handlers may run, and what the round records of it: an ID that was not seen before
-- is recorded, and a message without a positive ID leaves no record.
pub data Fresh (seen : ℤ → Result Bool) (msg : Message) : List Effect → Type 0 where
  unseen :
      is_positive (extract_event_id msg) ≡ true
      → seen (extract_event_id msg) ≡ ok false
      → Fresh seen msg (marked (extract_event_id msg) ∷ [])
  unnumbered : is_positive (extract_event_id msg) ≡ false → Fresh seen msg []

-- What a round can do with a message, and when.
pub data Outcome (u : Unmarshal) (now : ℤ) (seen : ℤ → Result Bool) (msg : Message)
    : List Effect → Type 0 where
  undecided :
      (e : Error) (es : List Effect)
      → is_positive (extract_event_id msg) ≡ true
      → seen (extract_event_id msg) ≡ err e
      → es ≡ []
      → Outcome u now seen msg es
  duplicate :
      (es : List Effect)
      → is_positive (extract_event_id msg) ≡ true
      → seen (extract_event_id msg) ≡ ok true
      → es ≡ committed msg ∷ []
      → Outcome u now seen msg es
  handled :
      (actions : List Action) (record_of es : List Effect)
      → Fresh seen msg record_of
      → dispatch u now msg ≡ ok actions
      → es ≡ acted msg actions ∷ (record_of ++ committed msg ∷ [])
      → Outcome u now seen msg es
  poison :
      (record_of es : List Effect)
      → Fresh seen msg record_of
      → dispatch u now msg ≡ err unmarshal
      → es ≡ dead_lettered msg ∷ (record_of ++ committed msg ∷ [])
      → Outcome u now seen msg es

finish-Fresh :
    (seen : ℤ → Result Bool) (msg : Message) (record_of : List Effect)
    → Fresh seen msg record_of
    → finish msg ≡ record_of ++ committed msg ∷ []
unfolding finish
finish-Fresh seen msg _ (unseen p a) = rw (finish, p)
finish-Fresh seen msg _ (unnumbered n) = rw (finish, n)

settle-Outcome :
    (u : Unmarshal) (now : ℤ) (seen : ℤ → Result Bool) (msg : Message) (record_of es : List Effect)
    (d : Result (List Action))
    → Fresh seen msg record_of
    → dispatch u now msg ≡ d
    → es ≡ settle msg d
    → Outcome u now seen msg es
settle-Outcome u now seen msg record_of es (ok actions) f e h =
    handled actions record_of es f e
      (h ∙ ap (λ fs. acted msg actions ∷ fs) (finish-Fresh seen msg record_of f))
settle-Outcome u now seen msg record_of es (err x) f e h =
    let bad : x ≡ unmarshal = dispatch_error u now msg x e in
    poison record_of es f (rw bad at e)
      (h ∙ rw bad (ap (λ fs. dead_lettered msg ∷ fs) (finish-Fresh seen msg record_of f)))

checked-Outcome :
    (u : Unmarshal) (now : ℤ) (seen : ℤ → Result Bool) (msg : Message) (answer : Result Bool)
    → is_positive (extract_event_id msg) ≡ true
    → seen (extract_event_id msg) ≡ answer
    → Outcome u now seen msg (round u now seen msg)
unfolding round
checked-Outcome u now seen msg (err e) p a = undecided e _ p a (rw (p, round) (rw a))
checked-Outcome u now seen msg (ok true) p a = duplicate _ p a (rw (p, round) (rw a))
checked-Outcome u now seen msg (ok false) p a =
    settle-Outcome u now seen msg _ _ (dispatch u now msg) (unseen p a) refl (rw (p, round) (rw a))

-- A round of the feed consumer does one of four things: nothing, where the dedup check of a
-- positive ID fails; the commit alone, where that ID was seen; and where it was not, or there is
-- none, the handlers of dispatch, or the dead letter of a payload that cannot be read, each
-- followed by the record of a positive ID and then the commit.
pub round-Outcome :
    (u : Unmarshal) (now : ℤ) (seen : ℤ → Result Bool) (msg : Message)
    → Outcome u now seen msg (round u now seen msg)
round-Outcome u now seen msg = elim (Bool-cases (is_positive (extract_event_id msg))) [
  | inl p ↦ checked-Outcome u now seen msg (seen (extract_event_id msg)) p refl
  | inr n ↦
      settle-Outcome u now seen msg _ _ (dispatch u now msg) (unnumbered n) refl
        (unfold round in rw (n, round))
]

-- The offsets of the messages whose actions ran or that were dead-lettered.
pub processed : List Effect → List ℕ
processed [] = []
processed (acted m actions ∷ es) = m.offset ∷ processed es
processed (dead_lettered m ∷ es) = m.offset ∷ processed es
processed (marked id ∷ es) = processed es
processed (committed m ∷ es) = processed es

abbrev pub Above : ℕ → List ℕ → Type 0
Above n = All (λ k. n < k)

processed-append : (es fs : List Effect) → processed (es ++ fs) ≡ processed es ++ processed fs
unfolding processed
processed-append [] fs = refl
processed-append (acted m actions ∷ es) fs = ap (λ t. m.offset ∷ t) (processed-append es fs)
processed-append (dead_lettered m ∷ es) fs = ap (λ t. m.offset ∷ t) (processed-append es fs)
processed-append (marked id ∷ es) fs = processed-append es fs
processed-append (committed m ∷ es) fs = processed-append es fs

processed-Fresh :
    (seen : ℤ → Result Bool) (msg : Message) (record_of : List Effect)
    → Fresh seen msg record_of
    → processed (record_of ++ committed msg ∷ []) ≡ []
unfolding processed
processed-Fresh seen msg _ (unseen p a) = refl
processed-Fresh seen msg _ (unnumbered n) = refl

Outcome-Above :
    (u : Unmarshal) (now : ℤ) (seen : ℤ → Result Bool) (msg : Message) (n : ℕ) (es : List Effect)
    → n < msg.offset
    → Outcome u now seen msg es
    → Above n (processed es)
Outcome-Above u now seen msg n es h (undecided e _ p a q) = rw q (unfold processed in tt)
Outcome-Above u now seen msg n es h (duplicate _ p a q) = rw q (unfold processed in tt)
Outcome-Above u now seen msg n es h (handled actions record_of _ f d q) =
    rw q (unfold processed in (h, rw (processed-Fresh seen msg record_of f) tt))
Outcome-Above u now seen msg n es h (poison record_of _ f d q) =
    rw q (unfold processed in (h, rw (processed-Fresh seen msg record_of f) tt))

abbrev pub LaterThan : ℕ → List (Message × Result Bool) → Type 0
LaterThan n [] = Unit
LaterThan n ((m, seen) ∷ rest) = (n < m.offset) × LaterThan n rest

run-Above :
    (u : Unmarshal) (now : ℤ) (n : ℕ) (ms : List (Message × Result Bool))
    → LaterThan n ms
    → Above n (processed (run u now ms))
unfolding run
run-Above u now n [] l = unfold processed in tt
run-Above u now n ((m, seen) ∷ rest) l = rw processed-append (
    All-append _ (processed (round u now (λ _. seen) m)) (processed (run u now rest))
      (Outcome-Above u now _ m n _ l.0 (round-Outcome u now (λ _. seen) m))
      (run-Above u now n rest l.1))

-- The broker's rule for a partition: committing a message covers every offset up to it.
abbrev pub CoversUpTo : (List Effect → ℕ) → Type 0
CoversUpTo position =
    (es fs : List Effect) (m : Message) → m.offset < position (es ++ committed m ∷ fs)

-- Where the dedup check of a message with a positive event ID fails and a later message of the
-- partition is committed, the group's position moves past the first message though no message up
-- to its offset was processed; messages come in the order of their offsets, and a commit covers
-- every offset up to its own.
pub unchecked_message_lost :
    (position : List Effect → ℕ)
    → CoversUpTo position
    → (u : Unmarshal) (now : ℤ) (msg later : Message) (e : Error)
      (rest : List (Message × Result Bool)) (es fs : List Effect)
    → is_positive (extract_event_id msg) ≡ true
    → LaterThan msg.offset rest
    → run u now rest ≡ es ++ committed later ∷ fs
    → msg.offset < later.offset
    → (msg.offset < position (run u now ((msg, err e) ∷ rest)))
      × Above msg.offset (processed (run u now ((msg, err e) ∷ rest)))
unfolding run
unchecked_message_lost position covers u now msg later e rest es fs p l r h =
    let nothing : round u now (λ _. err e) msg ≡ [] = unfold round in rw (p, round) in
    (
      rw (nothing, r) (omega (arith, covers es fs later)),
      rw nothing (run-Above u now msg.offset rest l),
    )
