-- ===== src/Dao/Writes/Kept.antt =====
-- src/dao.rs: a private message that is stored stays, whichever statements follow, until the private
-- messages of one of its two users are deleted.
use myx_im.Base.{
  ℕ, ◌≡◌, refl, ◌∙◌, ap, Bool, true, false, not, ◌&&◌, ◌||◌, some, List, [], ◌∷◌, ◌++◌, find?, any,
  ◌==◌, arith, Bool-cases, inl, inr,
}
use myx_im.Base.Rows.{any-update_where}
use myx_im.Base.Unique.{any-filter_kept}
use myx_im.Db.{Db, ChatMessage}
use myx_im.Dao.Select.{same_key}
use myx_im.Dao.Chat.{unseen_from, see}
use myx_im.Dao.Delete.{is_party}
use myx_im.Dao.Integrity.{IsIntact}
use myx_im.Dao.Keeps.Rows.{both_rows-Keeps}
use myx_im.Dao.Writes.{
  Write, inserts_user, inserts_chat_message, inserts_unless_sent, marks_seen, befriends,
  inserts_group, inserts_owner, inserts_member, deletes_member, inserts_group_message,
  inserts_group_unless_sent, upserts_group_cursor, increments_reads, deletes_chats, deletes_group,
  deletes_sent, deletes_cursors, deletes_account, Writes, here, then_write,
}
use myx_im.Dao.Writes.Chats.{Continues, has_id, seen-Writes}

-- The users whose private messages a statement deletes, and those of a sequence of statements.
abbrev pub deleted_by : {c d : Db} → Write c d → List ℕ
deleted_by (deletes_chats uid) = uid ∷ []
deleted_by _ = []

abbrev pub deleted_chats : {c d : Db} → Writes c d → List ℕ
deleted_chats here = []
deleted_chats (then_write r x) = deleted_by x ++ deleted_chats r

neither :
    (p : ℕ → Bool) (xs ys : List ℕ)
    → any p (xs ++ ys) ≡ false
    → (any p xs ≡ false) × (any p ys ≡ false)
neither p [] ys e = (refl, e)
neither p (x ∷ xs) ys e = ground (arith, neither p xs ys)

module _ (id a b : ℕ) where
  -- The message, between its two users.
  abbrev is_message : ChatMessage → Bool
  is_message n = has_id id n && (n.from_uid == a && n.to_uid == b)

  abbrev IsThere : Db → Type 0
  IsThere db = any is_message db.chat_messages ≡ true

  abbrev party : ℕ → Bool
  party uid = a == uid || b == uid

  Write-IsThere :
      {c d : Db} (x : Write c d) → any party (deleted_by x) ≡ false → IsThere c → IsThere d
  Write-IsThere (inserts_user now uid name hash) e v = ground arith
  Write-IsThere (inserts_chat_message now f t content msg_type) e v = ground arith
  Write-IsThere {c} (inserts_unless_sent now f t content msg_type cid) e v =
      elim (Bool-cases (any (λ n. same_key n.client_msg_id cid) c.chat_messages)) [
        | inl k ↦ rw k v
        | inr k ↦ rw k (ground arith)
      ]
  Write-IsThere {c} (marks_seen f t) e v =
      any-update_where (unseen_from f t) is_message see c.chat_messages (λ n. refl) ∙ v
  Write-IsThere {c} (befriends now f t faults) e v =
      both_rows-Keeps IsThere (λ now f t db h. ground arith) now f t
        (record { db = c; faults = faults }) v
  Write-IsThere (inserts_group now gid name owner) e v = ground arith
  Write-IsThere (inserts_owner now gid uid) e v = ground arith
  Write-IsThere (inserts_member now gid uid) e v = ground arith
  Write-IsThere (deletes_member gid uid) e v = v
  Write-IsThere (inserts_group_message now gid uid content msg_type) e v = ground arith
  Write-IsThere (inserts_group_unless_sent now gid uid content msg_type cid) e v = ground arith
  Write-IsThere (upserts_group_cursor uid gid last) e v = ground arith
  Write-IsThere (increments_reads gid old last uid) e v = v
  Write-IsThere {c} (deletes_chats uid) e v =
      any-filter_kept (λ n. not (is_party uid n)) is_message c.chat_messages (λ n h. ground arith)
      ∙ v
  Write-IsThere (deletes_group gid) e v = v
  Write-IsThere (deletes_sent uid) e v = v
  Write-IsThere (deletes_cursors uid) e v = v
  Write-IsThere (deletes_account uid) e v = ground arith

  Writes-IsThere :
      {c d : Db} (w : Writes c d) → any party (deleted_chats w) ≡ false → IsThere c → IsThere d
  Writes-IsThere here e v = v
  Writes-IsThere (then_write r x) e v =
      let (now, before) = neither party (deleted_by x) (deleted_chats r) e in
      Write-IsThere x now (Writes-IsThere r before v)

  found-IsThere :
      (m : ChatMessage) (ms : List ChatMessage)
      → m.from_uid ≡ a
      → m.to_uid ≡ b
      → find? (has_id id) ms ≡ some m
      → any is_message ms ≡ true
  found-IsThere m [] f t e = absurd (ground arith)
  found-IsThere m (x ∷ xs) f t e = elim (Bool-cases (has_id id x)) [
    | inl k ↦
        let same : x ≡ m = ground arith in
        ground (arith, ap (λ y. y.from_uid) same ∙ f, ap (λ y. y.to_uid) same ∙ t)
    | inr k ↦ ground (arith, found-IsThere m xs f t)
  ]

  IsThere-found :
      (ms : List ChatMessage)
      → any is_message ms ≡ true
      → (n : ChatMessage) × (find? (has_id id) ms ≡ some n)
  IsThere-found (x ∷ xs) e = elim (Bool-cases (has_id id x)) [
    | inl k ↦ (x, rw k refl)
    | inr k ↦ let (n, f) = IsThere-found xs (ground arith) in (n, rw k f)
  ]
  IsThere-found [] e = absurd (ground arith)

-- In tables that meet the keys of init.sql, whatever writing statements of src/dao.rs follow, unless
-- they delete the private messages of its sender or recipient, a private message that is found by its
-- id is found by it afterwards, with the same sender, recipient, content, type, client id and time,
-- and if it was seen it is still.
pub stored-Writes :
    {c d : Db} (id : ℕ) (m : ChatMessage)
    → IsIntact c
    → find? (has_id id) c.chat_messages ≡ some m
    → (w : Writes c d) → any (λ uid. is_party uid m) (deleted_chats w) ≡ false
    → (n : ChatMessage) × (find? (has_id id) d.chat_messages ≡ some n) × Continues m n
stored-Writes {c} {d} id m v f w e =
    let there =
      Writes-IsThere id m.from_uid m.to_uid w e
        (found-IsThere id m.from_uid m.to_uid m c.chat_messages refl refl f) in
    let (n, g) = IsThere-found id m.from_uid m.to_uid d.chat_messages there in
    (n, g, seen-Writes id m n v f w g)
