-- ===== src/Base/Sorted.antt =====
-- `ORDER BY`: the rows come out in order, and as often as they went in.
use Prim.Native.Nat.{ℕ, zero, suc, ◌+◌, ◌≤◌}
use mathlib.Core.Path.{◌≡◌, refl, sym, ap, ◌∙◌}
use mathlib.Core.Bool.{Bool, true, false, ◌||◌}
use mathlib.Core.Logic.{inl, inr}
use mathlib.Core.List.{List, [], ◌∷◌, ◌++◌, map}
use native.Mathlib.Omega.{arith}
use myx_im.Base.Tests.{if◌then◌else◌, Bool-cases}
use myx_im.Base.Lists.{length, take, filter, count_if, any, sort_by, insert_sorted}
use myx_im.Base.Rows.{All}

module _ {ℓ} {A : Type ℓ} where
  pub All-insert_sorted :
      (P : A → Type 0) (before : A → A → Bool) (a : A) (xs : List A)
      → P a
      → All P xs
      → All P (insert_sorted before a xs)
  All-insert_sorted P before a [] h hs = (h, tt)
  All-insert_sorted P before a (x ∷ xs) h hs = elim (Bool-cases (before a x)) [
    | inl e ↦ rw e (h, hs)
    | inr e ↦ rw e (hs.0, All-insert_sorted P before a xs h hs.1)
  ]

  pub All-sort_by :
      (P : A → Type 0) (before : A → A → Bool) (xs : List A) → All P xs → All P (sort_by before xs)
  All-sort_by P before [] h = tt
  All-sort_by P before (x ∷ xs) h =
      All-insert_sorted P before x (sort_by before xs) h.0 (All-sort_by P before xs h.1)

  pub All-take : (P : A → Type 0) (n : ℕ) (xs : List A) → All P xs → All P (take n xs)
  All-take P zero xs h = tt
  All-take P (suc n) [] h = tt
  All-take P (suc n) (x ∷ xs) h = (h.0, All-take P n xs h.1)

  pub take-map {κ} :
      {B : Type κ} (f : A → B) (n : ℕ) (xs : List A) → take n (map f xs) ≡ map f (take n xs)
  take-map f zero xs = refl
  take-map f (suc n) [] = refl
  take-map f (suc n) (x ∷ xs) = rw (take-map f n xs)

  pub take_of_length-le : (n : ℕ) (xs : List A) → length xs ≤ n → take n xs ≡ xs
  take_of_length-le zero [] h = refl
  take_of_length-le zero (x ∷ xs) h = absurd (omega arith)
  take_of_length-le (suc n) [] h = refl
  take_of_length-le (suc n) (x ∷ xs) h = rw (take_of_length-le n xs (omega arith))

  pub length-take-le : (n : ℕ) (xs : List A) → length (take n xs) ≤ n
  length-take-le (suc n) (x ∷ xs) = omega (arith, length-take-le n xs)
  length-take-le _ _ = omega arith

-- Each row comes before all that follow it.
abbrev pub IsSortedBy {ℓ} : {A : Type ℓ} → (A → A → Bool) → List A → Type 0
IsSortedBy before [] = Unit {0}
IsSortedBy before (x ∷ xs) = All (λ y. before x y ≡ true) xs × IsSortedBy before xs

module _ {ℓ} {A : Type ℓ} (before : A → A → Bool) where
  pub IsSortedBy-take : (n : ℕ) (xs : List A) → IsSortedBy before xs → IsSortedBy before (take n xs)
  IsSortedBy-take zero xs h = tt
  IsSortedBy-take (suc n) [] h = tt
  IsSortedBy-take (suc n) (x ∷ xs) h = (All-take _ n xs h.0, IsSortedBy-take n xs h.1)

  pub count_if-insert_sorted :
      (p : A → Bool) (a : A) (xs : List A)
      → count_if p (insert_sorted before a xs) ≡ (if p a then 1 else 0) + count_if p xs
  count_if-insert_sorted p a [] = refl
  count_if-insert_sorted p a (x ∷ xs) = ground (arith, count_if-insert_sorted p a xs)

  -- Sorting loses no row and makes none up.
  pub count_if-sort_by :
      (p : A → Bool) (xs : List A) → count_if p (sort_by before xs) ≡ count_if p xs
  count_if-sort_by p [] = refl
  count_if-sort_by p (x ∷ xs) =
      omega (arith, count_if-insert_sorted p x (sort_by before xs), count_if-sort_by p xs)

  -- What comes before none of the others goes to the end.
  pub insert_last :
      (a : A) (xs : List A)
      → All (λ x. before a x ≡ false) xs
      → insert_sorted before a xs ≡ xs ++ a ∷ []
  insert_last a [] h = refl
  insert_last a (x ∷ xs) h = rw (h.0, insert_last a xs h.1) refl

  any-insert_sorted :
      (p : A → Bool) (a : A) (xs : List A) → any p (insert_sorted before a xs) ≡ (p a || any p xs)
  any-insert_sorted p a [] = refl
  any-insert_sorted p a (x ∷ xs) = ground (arith, any-insert_sorted p a xs)

  pub any-sort_by : (p : A → Bool) (xs : List A) → any p (sort_by before xs) ≡ any p xs
  any-sort_by p [] = refl
  any-sort_by p (x ∷ xs) =
      any-insert_sorted p x (sort_by before xs) ∙ ap (◌||◌ (p x)) (any-sort_by p xs)

  length-insert_sorted :
      (a : A) (xs : List A) → length (insert_sorted before a xs) ≡ suc (length xs)
  length-insert_sorted a [] = refl
  length-insert_sorted a (x ∷ xs) = ground (arith, length-insert_sorted a xs)

  pub length-sort_by : (xs : List A) → length (sort_by before xs) ≡ length xs
  length-sort_by [] = refl
  length-sort_by (x ∷ xs) = length-insert_sorted x (sort_by before xs) ∙ ap suc (length-sort_by xs)

  module _ (total : (a b : A) → before a b ≡ false → before b a ≡ true)
      (trans : (a b c : A) → before a b ≡ true → before b c ≡ true → before a c ≡ true) where
    below-All :
        (a x : A) (xs : List A)
        → before a x ≡ true
        → All (λ y. before x y ≡ true) xs
        → All (λ y. before a y ≡ true) xs
    below-All a x [] h hs = tt
    below-All a x (y ∷ ys) h hs = (trans a x y h hs.0, below-All a x ys h hs.1)

    insert_sorted-IsSortedBy :
        (a : A) (xs : List A) → IsSortedBy before xs → IsSortedBy before (insert_sorted before a xs)
    insert_sorted-IsSortedBy a [] s = (tt, tt)
    insert_sorted-IsSortedBy a (x ∷ xs) s = elim (Bool-cases (before a x)) [
      | inl e ↦ rw e ((e, below-All a x xs e s.0), s)
      | inr e ↦ rw e (
        All-insert_sorted (λ y. before x y ≡ true) before a xs (total a x e) s.0,
        insert_sorted-IsSortedBy a xs s.1,
      )
    ]

    pub sort_by-IsSortedBy : (xs : List A) → IsSortedBy before (sort_by before xs)
    sort_by-IsSortedBy [] = tt
    sort_by-IsSortedBy (x ∷ xs) =
        insert_sorted-IsSortedBy x (sort_by before xs) (sort_by-IsSortedBy xs)

    -- The rows of one kind, among which another order is the same, are sorted by that order.
    module _ (p : A → Bool) (before' : A → A → Bool)
        (same_order : (a b : A) → p a ≡ true → p b ≡ true → before a b ≡ before' a b) where
      insert_first :
          (a : A) (xs : List A)
          → p a ≡ true
          → All (λ y. before a y ≡ true) xs
          → insert_sorted before' a (filter p xs) ≡ a ∷ filter p xs
      insert_first a [] h hs = refl
      insert_first a (x ∷ xs) h hs = elim (Bool-cases (p x)) [
        | inl e ↦ rw (e, sym (same_order a x h e), hs.0) refl
        | inr e ↦ rw e (insert_first a xs h hs.1)
      ]

      filter-insert_sorted :
          (a : A) (xs : List A)
          → IsSortedBy before xs
          → filter p (insert_sorted before a xs)
            ≡ (if p a then insert_sorted before' a (filter p xs) else filter p xs)
      filter-insert_sorted a [] s = refl
      filter-insert_sorted a (x ∷ xs) s = elim (Bool-cases (before a x)) [
        | inl e ↦ elim (Bool-cases (p a)) [
          | inl h ↦ rw (e, h) (sym (insert_first a (x ∷ xs) h (e, below-All a x xs e s.0)))
          | inr h ↦ rw (e, h) refl
        ]
        | inr e ↦ elim (Bool-cases (p x)) [
          | inl k ↦ elim (Bool-cases (p a)) [
            | inl h ↦
                rw (e, k, h, filter-insert_sorted a xs s.1, h, sym (same_order a x h k), e) refl
            | inr h ↦ rw (e, k, h, filter-insert_sorted a xs s.1, h) refl
          ]
          | inr k ↦ rw (e, k, filter-insert_sorted a xs s.1) refl
        ]
      ]

      pub filter-sort_by :
          (xs : List A) → filter p (sort_by before xs) ≡ sort_by before' (filter p xs)
      filter-sort_by [] = refl
      filter-sort_by (x ∷ xs) = elim (Bool-cases (p x)) [
        | inl h ↦
            filter-insert_sorted x (sort_by before xs) (sort_by-IsSortedBy xs)
            ∙ rw (h, filter-sort_by xs) refl
        | inr h ↦
            filter-insert_sorted x (sort_by before xs) (sort_by-IsSortedBy xs)
            ∙ rw (h, filter-sort_by xs) refl
      ]
