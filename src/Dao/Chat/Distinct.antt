-- ===== src/Dao/Chat/Distinct.antt =====
-- src/dao.rs, get_conversations: what `SELECT DISTINCT ON (peer_uid) … ORDER BY peer_uid, id DESC`
-- keeps of the messages with one peer.
use myx_im.Base.{
  ℕ, ◌≡◌, refl, ap, Bool, true, false, ◌&&◌, ◌||◌, Option, none, some, List, [], ◌∷◌, filter, any,
  take, ltb, leb, ◌==◌, inl, inr, arith, Bool-cases, ◌<◌,
}
use myx_im.Base.Rows.{All, All-map, filter_none}
use myx_im.Base.Sorted.{IsSortedBy}
use myx_im.Model.{Uuid}
use myx_im.Db.{ChatMessage}
use myx_im.Dao.Chat.{peer_of, by_peer, distinct_on, later_first}

module _ (uid p : Uuid) where
  abbrev pub is_with : ChatMessage → Bool
  is_with m = peer_of uid m == p

  -- The last peer seen is `p`.
  abbrev is_last : Option Uuid → Bool
  is_last none = false
  is_last (some q) = q == p

  distinct_on_none :
      (last : Option Uuid) (ms : List ChatMessage)
      → any is_with ms ≡ false
      → any is_with (distinct_on uid last ms) ≡ false
  distinct_on_none last [] h = refl
  distinct_on_none none (m ∷ ms) h = ground (arith, distinct_on_none (some (peer_of uid m)) ms)
  distinct_on_none (some q) (m ∷ ms) h = ground (arith, distinct_on_none (some (peer_of uid m)) ms)

  none_with_later :
      (m : ChatMessage) (ms : List ChatMessage)
      → p < peer_of uid m
      → All (λ n. by_peer uid m n ≡ true) ms
      → any is_with ms ≡ false
  none_with_later m [] h a = refl
  none_with_later m (n ∷ ms) h a = ground (arith, none_with_later m ms h a.1, a.0)

  pub same_peer : (m : ChatMessage) → is_with m ≡ true → peer_of uid m ≡ p
  same_peer m e = ground arith

  -- After a message with the peer no other one is kept.
  distinct_on_after :
      (q : Uuid) (ms : List ChatMessage)
      → q ≡ p
      → All (λ m. leb p (peer_of uid m) ≡ true) ms
      → IsSortedBy (by_peer uid) ms
      → filter is_with (distinct_on uid (some q) ms) ≡ []
  distinct_on_after q [] h a s = refl
  distinct_on_after q (m ∷ ms) h a s = elim (Bool-cases (is_with m)) [
    | inl e ↦ rw (h, e) (distinct_on_after (peer_of uid m) ms (same_peer m e) a.1 s.1)
    | inr e ↦
        rw (h, e, e)
          (filter_none is_with _ (
            distinct_on_none (some (peer_of uid m)) ms
              (none_with_later m ms (ground (arith, a.0, e)) s.0)))
  ]

  sorted_after :
      (m : ChatMessage) (ms : List ChatMessage)
      → is_with m ≡ true
      → All (λ n. by_peer uid m n ≡ true) ms
      → All (λ n. leb p (peer_of uid n) ≡ true) ms
  sorted_after m ms e = All-map _ _ ms (λ n h. ground (arith, e, h))

  first_kept :
      (m : ChatMessage) (ms : List ChatMessage)
      → is_with m ≡ true
      → IsSortedBy (by_peer uid) (m ∷ ms)
      → filter is_with (m ∷ distinct_on uid (some (peer_of uid m)) ms)
        ≡ take 1 (filter is_with (m ∷ ms))
  first_kept m ms e s = rw e (
      ap (λ l. m ∷ l)
        (distinct_on_after (peer_of uid m) ms (same_peer m e) (sorted_after m ms e s.0) s.1))

  pub distinct_on_first :
      (last : Option Uuid) (ms : List ChatMessage)
      → is_last last ≡ false
      → IsSortedBy (by_peer uid) ms
      → filter is_with (distinct_on uid last ms) ≡ take 1 (filter is_with ms)
  distinct_on_first last [] e s = refl
  distinct_on_first none (m ∷ ms) e s = elim (Bool-cases (is_with m)) [
    | inl h ↦ first_kept m ms h s
    | inr h ↦ rw h (distinct_on_first (some (peer_of uid m)) ms h s.1)
  ]
  distinct_on_first (some q) (m ∷ ms) e s = elim (Bool-cases (is_with m)) [
    | inl h ↦
        let other : ((peer_of uid m == q) ≡ false) = ground (arith, e, h) in
        rw other (first_kept m ms h s)
    | inr h ↦ elim (Bool-cases (peer_of uid m == q)) [
      | inl k ↦ rw (k, h) (distinct_on_first (some (peer_of uid m)) ms h s.1)
      | inr k ↦ rw (k, h) (distinct_on_first (some (peer_of uid m)) ms h s.1)
    ]
  ]

abbrev key_before : ℕ → ℕ → ℕ → ℕ → Bool
key_before x i y j = ltb x y || (x == y && leb j i)

key_before_total : (x i y j : ℕ) → key_before x i y j ≡ false → key_before y j x i ≡ true
key_before_total x i y j h = ground arith

key_before_trans :
    (x i y j z k : ℕ)
    → key_before x i y j ≡ true
    → key_before y j z k ≡ true
    → key_before x i z k ≡ true
key_before_trans x i y j z k h g = ground arith

pub by_peer_total :
    (uid : Uuid) (m n : ChatMessage) → by_peer uid m n ≡ false → by_peer uid n m ≡ true
by_peer_total uid m n = key_before_total (peer_of uid m) m.id (peer_of uid n) n.id

pub by_peer_trans :
    (uid : Uuid) (k m n : ChatMessage)
    → by_peer uid k m ≡ true
    → by_peer uid m n ≡ true
    → by_peer uid k n ≡ true
by_peer_trans uid k m n =
    key_before_trans (peer_of uid k) k.id (peer_of uid m) m.id (peer_of uid n) n.id

pub same_order :
    (uid p : Uuid) (m n : ChatMessage)
    → is_with uid p m ≡ true
    → is_with uid p n ≡ true
    → by_peer uid m n ≡ later_first m n
same_order uid p m n h k = ground arith
