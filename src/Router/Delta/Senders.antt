-- ===== src/Router/Delta/Senders.antt =====
-- src/router.rs: whom the updates after a group has been read go to, and what they hold.
use myx_im.Base.{
  ℕ, ◌≡◌, ◌≢◌, refl, sym, ◌∙◌, ap, subst, String, Bool, false, some, List, [], ◌∷◌, ◌++◌, map,
  filter, any, is_empty, ◌==◌, ◌||◌, if◌then◌else◌, arith, Bool-cases, inl, inr, ==_iff,
}
use mathlib.Core.List.{append_assoc, append-nil}
use myx_im.Base.Outcome.{ok}
use myx_im.Base.Rows.{All}
use myx_im.Base.Unique.{Unique}
use myx_im.Model.{DeltaItem}
use myx_im.Model.Wire.{GroupDeliveryUpdate}
use myx_im.Db.Statement.{Pool}
use myx_im.Dao.GroupRead.{mark_group_read_and_get_delta}
use myx_im.State.{OnlineUser, Frame, Channel, enqueue}
use myx_im.State.Delivery.{IsReachable}
use myx_im.Router.App.{AppState, Json, frame, push}
use myx_im.Router.Delta.{add_item, group_onto, by_sender, read_status, push_updates, mark_and_push}
use myx_im.Router.Ws.Groups.{
  Separate, push-Separate, other_queue, other-IsReachable, self_queue, self-IsReachable,
}

-- The items of the messages of one sender.
abbrev pub of_sender : ℕ → List DeltaItem → List DeltaItem
of_sender u = filter (λ d. d.from_uid == u)

abbrev Entry : Type 0
Entry = ℕ × List DeltaItem

abbrev items_of : ℕ → List Entry → List DeltaItem
items_of u [] = []
items_of u ((v, items) ∷ rest) = if v == u then items else items_of u rest

abbrev is_for : ℕ → Entry → Bool
is_for u e = e.0 == u

-- One entry for each sender, none of them empty.
abbrev IsGrouped : List Entry → Type 0
IsGrouped es = Unique (λ e f. is_for e.0 f) es × All (λ e. is_empty e.1 ≡ false) es

items_of-add_item :
    (u : ℕ) (d : DeltaItem) (es : List Entry)
    → items_of u (add_item d es)
      ≡ (if d.from_uid == u then items_of u es ++ d ∷ [] else items_of u es)
items_of-add_item u d [] = refl
items_of-add_item u d ((v, items) ∷ es) = ground (arith, items_of-add_item u d es)

any-add_item :
    (u : ℕ) (d : DeltaItem) (es : List Entry)
    → any (is_for u) (add_item d es) ≡ (d.from_uid == u || any (is_for u) es)
any-add_item u d [] = refl
any-add_item u d ((v, items) ∷ es) = ground (arith, any-add_item u d es)

is_empty-add : (ds : List DeltaItem) (d : DeltaItem) → is_empty (ds ++ d ∷ []) ≡ false
is_empty-add [] d = refl
is_empty-add (x ∷ ds) d = refl

add_item-IsGrouped : (d : DeltaItem) (es : List Entry) → IsGrouped es → IsGrouped (add_item d es)
add_item-IsGrouped d [] h = ((refl, tt), (refl, tt))
add_item-IsGrouped d ((v, items) ∷ es) ((a, u), (n, ns)) = elim (Bool-cases (v == d.from_uid)) [
  | inl e ↦ rw e ((a, u), (is_empty-add items d, ns))
  | inr e ↦
      let (u', ns') = add_item-IsGrouped d es (u, ns) in
      rw e ((any-add_item v d es ∙ ground arith, u'), (n, ns'))
]

items_of-group_onto :
    (u : ℕ) (es : List Entry) (ds : List DeltaItem)
    → items_of u (group_onto es ds) ≡ items_of u es ++ of_sender u ds
items_of-group_onto u es [] = sym (append-nil (items_of u es))
items_of-group_onto u es (d ∷ ds) =
    items_of-group_onto u (add_item d es) ds
    ∙ ap (λ l. l ++ of_sender u ds) (items_of-add_item u d es)
    ∙ elim (Bool-cases (d.from_uid == u)) [
      | inl e ↦ rw (e, append_assoc (items_of u es) (d ∷ []) (of_sender u ds)) refl
      | inr e ↦ rw e refl
    ]

group_onto-IsGrouped :
    (es : List Entry) (ds : List DeltaItem) → IsGrouped es → IsGrouped (group_onto es ds)
group_onto-IsGrouped es [] h = h
group_onto-IsGrouped es (d ∷ ds) h =
    group_onto-IsGrouped (add_item d es) ds (add_item-IsGrouped d es h)

items_of-absent : (u : ℕ) (es : List Entry) → any (is_for u) es ≡ false → items_of u es ≡ []
items_of-absent u [] h = refl
items_of-absent u ((v, items) ∷ es) h = ground (arith, items_of-absent u es)

module _ {V : Type 0} (json : Json V) (text : GroupDeliveryUpdate → String)
    (written : (m : GroupDeliveryUpdate) → json.group_delivery_update m ≡ some (text m))
    (gid reader : ℕ) where
  abbrev update_frame : List DeltaItem → Frame
  update_frame items =
      frame "group_delivery_update" 0 (
        text (record { group_id = gid; msg_statuses = map read_status items; reader_uid = reader }))

  -- A channel behind which an update is put, if there is something to tell.
  abbrev pub told_of : List DeltaItem → Channel → Channel
  told_of items c = if is_empty items then c else enqueue (update_frame items) c

  push_updates-told :
      (u : ℕ) (o : OnlineUser) (es : List Entry) (s : AppState)
      → IsGrouped es
      → Separate s.online
      → IsReachable u o s.online
      → (push_updates json gid reader es s).online.channels o.tx
        ≡ told_of (items_of u es) (s.online.channels o.tx)
  push_updates-told u o [] s g h r = refl
  push_updates-told u o ((v, items) ∷ es) s ((a, k), (n, ns)) h r =
      let msg = update_frame items in
      let later =
        push_updates-told u o es (push v msg s) (k, ns) (push-Separate v msg s.online h) in
      rw (push_updates, written _)
        (elim (Bool-cases (v == u)) [
          | inl e ↦
              let me : v ≡ u = (==_iff v u).0 e in
              let r' : IsReachable v o s.online =
                subst (λ x. IsReachable x o s.online) (sym me) r in
              let no_more = items_of-absent u es (subst (λ x. any (is_for x) es ≡ false) me a) in
              later (
                subst (λ x. IsReachable x o (push v msg s).online) me
                  (self-IsReachable v o msg s.online r'))
              ∙ ap (λ l. told_of l ((push v msg s).online.channels o.tx)) no_more
              ∙ self_queue v o msg s.online r'
              ∙ rw (e, n) refl
          | inr e ↦
              let ne : v ≢ u = λ q. ground arith in
              rw e (
                later (other-IsReachable v u o msg s.online h ne r)
                ∙ ap (told_of (items_of u es)) (other_queue v u o msg s.online h ne r))
        ])

  -- After a group has been marked as read, each user who can be reached and wrote a message that is
  -- newly read is sent one update, with the read counts of these messages of the user, in the order
  -- of the delta; whoever wrote none is sent nothing. Every update can be written, and different
  -- users have different connections.
  pub mark_and_push-told :
      (u : ℕ) (o : OnlineUser) (s : AppState) (delta : List DeltaItem) (p : Pool)
      → mark_group_read_and_get_delta gid reader s.pool ≡ ok delta p
      → Separate s.online
      → IsReachable u o s.online
      → (mark_and_push json gid reader s).online.channels o.tx
        ≡ told_of (of_sender u delta) (s.online.channels o.tx)
  unfolding mark_and_push
  mark_and_push-told u o s delta p e h r = rw e (
      push_updates-told u o (by_sender delta) (record s { pool = p })
        (group_onto-IsGrouped [] delta (tt, tt)) h r
      ∙ ap (λ l. told_of l (s.online.channels o.tx)) (items_of-group_onto u [] delta))
