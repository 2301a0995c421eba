-- ===== src/Router/Delta.antt =====
-- src/router.rs: the pushes of group_delivery_update after a group has been marked as read.
pub mod Senders
use myx_im.Base.{String, Option, none, some, List, [], ◌∷◌, ◌++◌, map, ◌==◌, if◌then◌else◌}
use myx_im.Model.{Uuid, DeltaItem, GroupMsgReadStatus}
use myx_im.Model.Wire.{GroupDeliveryUpdate}
use myx_im.Dao.GroupRead.{mark_group_read_and_get_delta}
use myx_im.Router.App.{AppState, Json, frame, push, query}

-- `sender_msgs.entry(d.from_uid).or_default().push(d)`
abbrev pub add_item : DeltaItem → List (Uuid × List DeltaItem) → List (Uuid × List DeltaItem)
add_item d [] = (d.from_uid, d ∷ []) ∷ []
add_item d ((uid, items) ∷ rest) =
    let others = add_item d rest in
    if uid == d.from_uid then (uid, items ++ d ∷ []) ∷ rest else (uid, items) ∷ others

abbrev pub group_onto : List (Uuid × List DeltaItem) → List DeltaItem → List (Uuid × List DeltaItem)
group_onto acc [] = acc
group_onto acc (d ∷ ds) = group_onto (add_item d acc) ds

-- The delta by sender. A HashMap has no order; here the senders stand in the order of the delta.
abbrev pub by_sender : List DeltaItem → List (Uuid × List DeltaItem)
by_sender = group_onto []

abbrev pub read_status : DeltaItem → GroupMsgReadStatus
read_status d = record { msg_id = d.msg_id; read = d.read_count; total = d.total }

module _ {V : Type 0} (json : Json V) (group_id reader_uid : Uuid) where
  abbrev pub send_update : Uuid → Option String → AppState → AppState
  send_update uid none s = s
  send_update uid (some body) s = push uid (frame "group_delivery_update" 0 body) s

  abbrev pub push_updates : List (Uuid × List DeltaItem) → AppState → AppState
  push_updates [] s = s
  push_updates ((uid, items) ∷ rest) s =
      let update : GroupDeliveryUpdate = record {
        group_id = group_id;
        msg_statuses = map read_status items;
        reader_uid = reader_uid;
      } in
      push_updates rest (send_update uid (json.group_delivery_update update) s)

  -- Marks the group as read, and tells each sender of a message that is newly read.
  unfoldable pub mark_and_push : AppState → AppState
  mark_and_push =
      query (mark_group_read_and_get_delta group_id reader_uid)
        (λ delta s. push_updates (by_sender delta) s) (λ e s. s)
