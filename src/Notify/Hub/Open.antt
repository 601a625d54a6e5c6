-- ===== src/Notify/Hub/Open.antt =====
-- The hub never panics: it sends on and closes only channels that are open.
use twitter_microservices.Prelude.{
  ℕ, ◌<◌, ◌≡◌, refl, ◌∙◌, ◌⊎◌, Bool, true, false, ◌||◌, Option, none, some, List, [], ◌∷◌, ◌++◌,
  Bytes, ◌=?◌, ◌==◌, if◌then◌else◌, arith, inl, inr, Bool-cases, bytes_eq_refl, bytes_eq_of_true,
}
use twitter_microservices.Notify.Store.{Notification}
use twitter_microservices.Notify.Hub.{
  Channel, Hub, set_subs, set_channel, subscribe, without, unsubscribed, unsubscribe, offer,
  send_all, fan_out_local, receive,
}

abbrev pub is_in : ℕ → List ℕ → Bool
is_in c [] = false
is_in c (d ∷ ds) = d == c || is_in c ds

-- No channel stands twice.
abbrev pub Distinct : List ℕ → Type 0
Distinct [] = Unit
Distinct (c ∷ cs) = (is_in c cs ≡ false) × Distinct cs

-- A registered channel is open and was made, and is registered once.
pub record IsSound (h : Hub) : Type 0 where
  pub open_subs : (u : Bytes) (c : ℕ) → is_in c (h.subs u) ≡ true → (h.channels c).closed ≡ false
  pub made_subs : (u : Bytes) (c : ℕ) → is_in c (h.subs u) ≡ true → c < h.made
  pub one_user :
      (u v : Bytes) (c : ℕ)
      → is_in c (h.subs u) ≡ true
      → is_in c (h.subs v) ≡ true
      → (u =? v) ≡ true
  pub distinct : (u : Bytes) → Distinct (h.subs u)

is_in-append : (c d : ℕ) (cs : List ℕ) → is_in c (cs ++ d ∷ []) ≡ (is_in c cs || d == c)
is_in-append c d [] = ground arith
is_in-append c d (x ∷ xs) = ground (arith, is_in-append c d xs)

is_in-without : (c d : ℕ) (cs : List ℕ) → is_in c (without d cs) ≡ true → is_in c cs ≡ true
is_in-without c d [] h = h
is_in-without c d (x ∷ xs) h = ground (arith, is_in-without c d xs)

without_gone : (c : ℕ) (cs : List ℕ) → Distinct cs → is_in c (without c cs) ≡ false
without_gone c [] d = refl
without_gone c (x ∷ xs) (d, ds) = ground (arith, without_gone c xs ds)

Distinct-without : (c : ℕ) (cs : List ℕ) → Distinct cs → Distinct (without c cs)
Distinct-without c [] d = tt
Distinct-without c (x ∷ xs) (d, ds) = elim (Bool-cases (x == c)) [
  | inl here ↦ rw here ds
  | inr other ↦ rw other (ground (arith, is_in-without x c xs), Distinct-without c xs ds)
]

Distinct-append : (c : ℕ) (cs : List ℕ) → Distinct cs → is_in c cs ≡ false → Distinct (cs ++ c ∷ [])
Distinct-append c [] d h = (refl, tt)
Distinct-append c (x ∷ xs) (d, ds) h =
    (ground (arith, is_in-append x c xs), Distinct-append c xs ds (ground arith))

if_open : (b : Bool) (r : Option (ℕ → Channel)) → b ≡ false → (if b then none else r) ≡ r
if_open b r h = rw h refl

-- Sending to open channels succeeds and closes none.
send_all-open :
    (n : Notification) (cs : List ℕ) (channels : ℕ → Channel)
    → ((c : ℕ) → is_in c cs ≡ true → (channels c).closed ≡ false)
    → (after : ℕ → Channel) × (send_all n cs channels ≡ some after)
      × ((c : ℕ) → (after c).closed ≡ (channels c).closed)
unfolding send_all
send_all-open n [] channels all_open = (channels, refl, λ c. refl)
send_all-open n (x ∷ xs) channels all_open =
    let kept : (c : ℕ)
        → (set_channel x (offer n (channels x)) channels c).closed ≡ (channels c).closed =
      λ c. ground arith in
    let (after, e, same) =
      send_all-open n xs (set_channel x (offer n (channels x)) channels)
        (λ c h. kept c ∙ all_open c (ground arith)) in
    (after, if_open _ _ (all_open x (ground arith)) ∙ e, λ c. same c ∙ kept c)

pub fan_out_local-IsSound :
    (user : Bytes) (n : Notification) (h : Hub)
    → IsSound h
    → (h' : Hub) × (fan_out_local user n h ≡ some h') × IsSound h'
unfolding fan_out_local
fan_out_local-IsSound user n h s =
    let (after, e, same) = send_all-open n (h.subs user) h.channels (s.open_subs user) in
    (
      record { subs = h.subs; channels = after; made = h.made },
      rw (e, fan_out_local) refl,
      record {
        open_subs = λ u c i. same c ∙ s.open_subs u c i;
        made_subs = s.made_subs;
        one_user = s.one_user;
        distinct = s.distinct;
      },
    )

-- A channel that is registered after a subscription was registered before, or is the new one.
set_subs_append :
    (user u : Bytes) (c m : ℕ) (subs : Bytes → List ℕ)
    → is_in c (set_subs user (subs user ++ m ∷ []) subs u) ≡ true
    → (is_in c (subs u) ≡ true) ⊎ ((c ≡ m) × (u ≡ user))
set_subs_append user u c m subs i = elim (Bool-cases (u =? user)) [
  | inl same ↦
      let to : u ≡ user = bytes_eq_of_true u user same in
      elim (Bool-cases (m == c)) [
        | inl new ↦ inr (ground arith, to)
        | inr old ↦ inl (rw to (ground (arith, is_in-append c m (subs user))))
      ]
  | inr other ↦ inl (rw other at i)
]

-- A channel that is registered after one was removed was registered before.
set_subs-without :
    (user u : Bytes) (c d : ℕ) (subs : Bytes → List ℕ)
    → is_in d (set_subs user (without c (subs user)) subs u) ≡ true
    → is_in d (subs u) ≡ true
set_subs-without user u c d subs i = elim (Bool-cases (u =? user)) [
  | inl same ↦ rw (bytes_eq_of_true u user same) (is_in-without d c (subs user) (rw same at i))
  | inr other ↦ rw other at i
]

pub subscribe-IsSound : (user : Bytes) (h : Hub) → IsSound h → IsSound (subscribe user h).1
unfolding subscribe
subscribe-IsSound user h s = record {
  open_subs = λ u c i. elim (set_subs_append user u c h.made h.subs i) [
    | inl old ↦ ground (arith, s.open_subs u c old)
    | inr (new, to) ↦ ground arith
  ];
  made_subs = λ u c i. elim (set_subs_append user u c h.made h.subs i) [
    | inl old ↦ omega (arith, s.made_subs u c old)
    | inr (new, to) ↦ omega arith
  ];
  one_user = λ u v c i j. elim (set_subs_append user u c h.made h.subs i) [
    | inl old ↦ elim (set_subs_append user v c h.made h.subs j) [
      | inl old' ↦ s.one_user u v c old old'
      | inr (new, to) ↦ absurd (omega (arith, s.made_subs u c old))
    ]
    | inr (new, to) ↦ elim (set_subs_append user v c h.made h.subs j) [
      | inl old ↦ absurd (omega (arith, s.made_subs v c old))
      | inr (new', to') ↦ rw (to, to') (bytes_eq_refl user)
    ]
  ];
  distinct = λ u. elim (Bool-cases (u =? user)) [
    | inl same ↦ rw same (
        Distinct-append h.made (h.subs user) (s.distinct user)
          (not_made user (Bool-cases (is_in h.made (h.subs user)))))
    | inr other ↦ rw other (s.distinct u)
  ];
}
  where
    not_made :
        (u : Bytes)
        → (is_in h.made (h.subs u) ≡ true) ⊎ (is_in h.made (h.subs u) ≡ false)
        → is_in h.made (h.subs u) ≡ false
    not_made u (inl i) = absurd (omega (arith, s.made_subs u h.made i))
    not_made u (inr n) = n

-- The removed channel is registered nowhere.
gone :
    (user u : Bytes) (c : ℕ) (h : Hub)
    → IsSound h
    → is_in c (h.subs user) ≡ true
    → is_in c (set_subs user (without c (h.subs user)) h.subs u) ≡ true
    → ⊥
gone user u c h s i j = elim (Bool-cases (u =? user)) [
  | inl same ↦ ground (arith, rw same at j, without_gone c (h.subs user) (s.distinct user))
  | inr other ↦ ground (arith, s.one_user u user c (rw other at j) i)
]

pub none_left :
    (user u : Bytes) (c : ℕ) (h : Hub)
    → IsSound h
    → is_in c (h.subs user) ≡ true
    → is_in c ((unsubscribed user c h).subs u) ≡ false
none_left user u c h s i = elim (Bool-cases (is_in c ((unsubscribed user c h).subs u))) [
  | inl j ↦ absurd (gone user u c h s i j)
  | inr n ↦ n
]

unsubscribed-IsSound :
    (user : Bytes) (c : ℕ) (h : Hub)
    → IsSound h
    → is_in c (h.subs user) ≡ true
    → IsSound (unsubscribed user c h)
unsubscribed-IsSound user c h s i = record {
  open_subs = λ u d j. elim (Bool-cases (d == c)) [
    | inl same ↦ absurd (gone user u c h s i (rw (eq_of_test d c same) at j))
    | inr other ↦ rw other (s.open_subs u d (set_subs-without user u c d h.subs j))
  ];
  made_subs = λ u d j. s.made_subs u d (set_subs-without user u c d h.subs j);
  one_user = λ u v d j k.
      s.one_user u v d (set_subs-without user u c d h.subs j)
        (set_subs-without user v c d h.subs k);
  distinct = λ u. elim (Bool-cases (u =? user)) [
    | inl same ↦ rw same (Distinct-without c (h.subs user) (s.distinct user))
    | inr other ↦ rw other (s.distinct u)
  ];
}
  where
    eq_of_test : (a b : ℕ) → (a == b) ≡ true → a ≡ b
    eq_of_test a b e = ground arith

pub unsubscribe-IsSound :
    (user : Bytes) (c : ℕ) (h : Hub)
    → IsSound h
    → is_in c (h.subs user) ≡ true
    → (unsubscribe user c h ≡ some (unsubscribed user c h)) × IsSound (unsubscribed user c h)
unfolding unsubscribe
unsubscribe-IsSound user c h s i =
    (still_open (h.channels c).closed (s.open_subs user c i), unsubscribed-IsSound user c h s i)
  where
    still_open :
        (b : Bool)
        → b ≡ false
        → (if b then none else some (unsubscribed user c h)) ≡ some (unsubscribed user c h)
    still_open b e = rw e refl

pub receive-IsSound : (c : ℕ) (h : Hub) → IsSound h → IsSound (receive c h)
unfolding receive
receive-IsSound c h s = record {
  open_subs = λ u d i. kept (h.channels c).buffer d ∙ s.open_subs u d i;
  made_subs = s.made_subs;
  one_user = s.one_user;
  distinct = s.distinct;
}
  where
    kept :
        (b : List Notification) (d : ℕ)
        → (set_channel c
            (elim b [
              | [] ↦ h.channels c
              | _ ∷ ns ↦ record { buffer = ns; closed = (h.channels c).closed }
            ])
            h.channels
            d).closed
          ≡ (h.channels d).closed
    kept [] d = ground arith
    kept (n ∷ ns) d = ground arith
