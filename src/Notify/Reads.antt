-- ===== src/Notify/Reads.antt =====
-- The calls of the users on their notifications: CountUnread, MarkRead and MarkAllRead of
-- apps/notification-service/internal/notification/service.go, with their queries of
-- apps/notification-service/db/query.sql. `now` is the time of the database.
pub mod Unread
pub mod Own
use twitter_microservices.Prelude.{
  ℕ, zero, suc, ◌^◌, Bool, true, false, ◌&&◌, Option, none, some, List, [], ◌∷◌, map, Bytes, codes,
  ◌=?◌, if◌then◌else◌, ℤ, pos, ltb,
}
use twitter_microservices.Shared.Errors.{Error, Result, ok, err, no_rows, pg}
use twitter_microservices.Shared.Tx.{Tx, map_tx}
use twitter_microservices.Notify.Store.{Notification, Tables}

abbrev pub is_unset : Option ℤ → Bool
is_unset none = true
is_unset (some at) = false

abbrev pub is_unread : Bytes → Notification → Bool
is_unread user_id n = n.user_id =? user_id && is_unset n.read_at

abbrev pub unread : Bytes → List Notification → ℕ
unread user_id [] = zero
unread user_id (n ∷ ns) =
    let rest = unread user_id ns in if is_unread user_id n then suc rest else rest

-- COUNT(*)::int, which PostgreSQL refuses beyond an int4.
abbrev pub as_int4 : ℕ → Result ℕ
as_int4 n = if ltb n (2 ^ 31) then ok n else err (pg (codes "22003"))

-- CountUnreadNotifications
unfoldable pub count_unread_notifications : Bytes → Tx Tables ℕ
count_unread_notifications user_id t = (as_int4 (unread user_id t.notifications), t)

-- COALESCE(read_at, NOW())
abbrev pub coalesce : Option ℤ → ℤ → ℤ
coalesce none now = now
coalesce (some at) now = at

abbrev pub is_row : Bytes → Bytes → Notification → Bool
is_row id user_id n = n.id =? id && n.user_id =? user_id

abbrev pub read_row : ℤ → Bytes → Bytes → Notification → Notification
read_row now id user_id n =
    if is_row id user_id n then record n { read_at = some (coalesce n.read_at now) } else n

-- The row of RETURNING.
abbrev pub returned : Bytes → Bytes → List Notification → Result Notification
returned id user_id [] = err no_rows
returned id user_id (n ∷ ns) =
    let rest = returned id user_id ns in if is_row id user_id n then ok n else rest

-- MarkNotificationRead
unfoldable pub mark_notification_read : ℤ → Bytes → Bytes → Tx Tables Notification
mark_notification_read now id user_id t =
    let rows = map (read_row now id user_id) t.notifications in
    (returned id user_id rows, record t { notifications = rows })

abbrev pub read_own : ℤ → Bytes → Notification → Notification
read_own now user_id n = if is_unread user_id n then record n { read_at = some now } else n

-- MarkAllNotificationsRead
unfoldable pub mark_all_notifications_read : ℤ → Bytes → Tx Tables (Unit {0})
mark_all_notifications_read now user_id t =
    (ok tt, record t { notifications = map (read_own now user_id) t.notifications })

-- CountUnread
unfoldable pub count_unread : Bytes → Tx Tables ℕ
unfolding count_unread_notifications
count_unread user_id = map_tx (count_unread_notifications user_id)

-- MarkAllRead
unfoldable pub mark_all_read : ℤ → Bytes → Tx Tables (Unit {0})
unfolding mark_all_notifications_read
mark_all_read now user_id = map_tx (mark_all_notifications_read now user_id)

-- MarkRead
unfoldable pub mark_read : ℤ → Bytes → Bytes → Tx Tables Notification
unfolding mark_notification_read
mark_read now notif_id user_id = map_tx (mark_notification_read now notif_id user_id)
