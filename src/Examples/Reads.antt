-- ===== src/Examples/Reads.antt =====
-- A user who reads notifications.
use twitter_microservices.Prelude.{◌≡◌, ◌⊎◌, none, [], ◌∷◌, codes, ◌=?◌, if◌then◌else◌, pos, false}
use twitter_microservices.Shared.Errors.{ok, err, app, err_not_found}
use twitter_microservices.Notify.Store.{Notification, Tables}
use twitter_microservices.Notify.Reads.{is_unset, count_unread, mark_all_read, mark_read}
use twitter_microservices.Notify.Reads.Unread.{mark_all_read-count_unread}
use twitter_microservices.Notify.Reads.Own.{NoneOwn, mark_read-own}

abbrev a_follow : Notification
a_follow = record {
  id = codes "ntf_1";
  user_id = codes "bob";
  actor_id = codes "ann";
  type_of = codes "follow";
  tweet_id = none;
  read_at = none;
  created_at = pos 5;
}

abbrev a_reply : Notification
a_reply = record a_follow { id = codes "ntf_2"; user_id = codes "eve"; type_of = codes "reply" }

abbrev tables : Tables
tables = record { notifications = a_reply ∷ a_follow ∷ []; processed = [] }

mark_all_read-count_unread_example :
    (count_unread (codes "eve") (mark_all_read (pos 9) (codes "bob") tables).1).0
    ≡ (if codes "eve" =? codes "bob" then ok 0 else (count_unread (codes "eve") tables).0)
mark_all_read-count_unread_example =
    mark_all_read-count_unread (pos 9) (codes "bob") (codes "eve") tables

mark_read-own_example :
    (NoneOwn (codes "ntf_1") (codes "bob") tables.notifications
      × (mark_read (pos 9) (codes "ntf_1") (codes "bob") tables
          ≡ (err (app err_not_found), tables)))
    ⊎ ((n : Notification) × ((mark_read (pos 9) (codes "ntf_1") (codes "bob") tables).0 ≡ ok n)
        × (n.id ≡ codes "ntf_1")
        × (n.user_id ≡ codes "bob")
        × (is_unset n.read_at ≡ false))
mark_read-own_example = mark_read-own (pos 9) (codes "ntf_1") (codes "bob") tables
