-- ===== src/Notify/Reads/Unread.antt =====
-- How MarkRead and MarkAllRead change what CountUnread answers.
use twitter_microservices.Prelude.{
  ◌≡◌, ◌∙◌, ◌^◌, refl, sym, ap, inl, inr, true, false, List, [], ◌∷◌, map, Bytes, ◌=?◌,
  if◌then◌else◌, ℤ, arith, Bool-cases, bytes_eq_iff, ltb,
}
use twitter_microservices.Shared.Errors.{Result, ok, err, map_err, is_unique_violation}
use twitter_microservices.Shared.Tx.{map_tx}
use twitter_microservices.Notify.Store.{Notification, Tables}
use twitter_microservices.Notify.Reads.{
  is_unread, unread, is_row, read_row, returned, read_own, count_unread, mark_all_read, mark_read,
  as_int4,
}

other_owner :
    (a u user_id : Bytes) → (a =? user_id) ≡ true → (u =? user_id) ≡ false → (a =? u) ≡ false
other_owner a u user_id mine other = elim (Bool-cases (a =? u)) [
  | inl same ↦
      let a_is_u = (bytes_eq_iff a u).0 same in
      let clash : true ≡ false = sym mine ∙ ap (λ x. x =? user_id) a_is_u ∙ other in
      absurd (ground arith)
  | inr apart ↦ apart
]

unread_after :
    (now : ℤ) (u user_id : Bytes) (n : Notification)
    → is_unread u (read_own now user_id n) ≡ (if u =? user_id then false else is_unread u n)
unread_after now u user_id n = elim (Bool-cases (n.user_id =? user_id)) [
  | inl mine ↦ elim (Bool-cases (u =? user_id)) [
    | inl same ↦ ground arith
    | inr other ↦ let apart = other_owner n.user_id u user_id mine other in ground arith
  ]
  | inr foreign ↦ elim (Bool-cases (u =? user_id)) [
    | inl same ↦ let u_is = (bytes_eq_iff u user_id).0 same in ground arith
    | inr other ↦ ground arith
  ]
]

unread-map :
    (now : ℤ) (u user_id : Bytes) (ns : List Notification)
    → unread u (map (read_own now user_id) ns) ≡ (if u =? user_id then 0 else unread u ns)
unread-map now u user_id [] = elim (Bool-cases (u =? user_id)) [
  | inl mine ↦ rw mine
  | inr other ↦ rw other
]
unread-map now u user_id (n ∷ ns) =
    rw (unread_after now u user_id n, unread-map now u user_id ns)
      (elim (Bool-cases (u =? user_id)) [ inl mine ↦ rw mine | inr other ↦ rw other ])

-- CountUnread passes the error of the query on.
count_unread_answer :
    (u : Bytes) (t : Tables) → (count_unread u t).0 ≡ as_int4 (unread u t.notifications)
unfolding count_unread map_err is_unique_violation ◌=?◌
count_unread_answer u t = elim (Bool-cases (ltb (unread u t.notifications) (2 ^ 31))) [
  | inl fits ↦ rw (count_unread, fits)
  | inr beyond ↦ rw (count_unread, beyond)
]

-- Behind MarkAllRead of a user, that user has no unread notification, and every other user has as
-- many as before.
pub mark_all_read-count_unread :
    (now : ℤ) (user_id u : Bytes) (t : Tables)
    → (count_unread u (mark_all_read now user_id t).1).0
      ≡ (if u =? user_id then ok 0 else (count_unread u t).0)
unfolding count_unread mark_all_read
mark_all_read-count_unread now user_id u t =
    count_unread_answer u (mark_all_read now user_id t).1
    ∙ ap as_int4 (unread-map now u user_id t.notifications)
    ∙ elim (Bool-cases (u =? user_id)) [
      | inl mine ↦ rw mine
      | inr other ↦ rw other (sym (count_unread_answer u t))
    ]

read_row_twice :
    (now later : ℤ) (id user_id : Bytes) (n : Notification)
    → read_row later id user_id (read_row now id user_id n) ≡ read_row now id user_id n
read_row_twice now later id user_id n = elim (Bool-cases (is_row id user_id n)) [
  | inl here ↦ rw here (rw here)
  | inr there ↦ rw there (rw there)
]

read_rows_twice :
    (now later : ℤ) (id user_id : Bytes) (ns : List Notification)
    → map (read_row later id user_id) (map (read_row now id user_id) ns)
      ≡ map (read_row now id user_id) ns
read_rows_twice now later id user_id [] = refl
read_rows_twice now later id user_id (n ∷ ns) =
    rw (read_row_twice now later id user_id n, read_rows_twice now later id user_id ns)

map_tx-state : (r : Result Notification) (t : Tables) → (map_tx (λ s. (r, s)) t).1 ≡ t
map_tx-state (ok n) t = refl
map_tx-state (err e) t = refl

mark_read-rows :
    (now : ℤ) (id user_id : Bytes) (t : Tables)
    → (mark_read now id user_id t).1
      ≡ record t { notifications = map (read_row now id user_id) t.notifications }
unfolding mark_read
mark_read-rows now id user_id t =
    map_tx-state (returned id user_id (map (read_row now id user_id) t.notifications))
      (record t { notifications = map (read_row now id user_id) t.notifications })

-- A second MarkRead of a notification answers as the first and changes nothing: the time of the first
-- reading stays.
pub mark_read_twice :
    (now later : ℤ) (id user_id : Bytes) (t : Tables)
    → mark_read later id user_id (mark_read now id user_id t).1
      ≡ ((mark_read now id user_id t).0, (mark_read now id user_id t).1)
unfolding mark_read
mark_read_twice now later id user_id t =
    ap (mark_read later id user_id) (mark_read-rows now id user_id t)
    ∙ rw (mark_read, read_rows_twice now later id user_id t.notifications)
