-- ===== src/Base/Unique.antt =====
-- Keys and references of tables: what a `UNIQUE` constraint says of the rows, and how the rows keep
-- it, and what is said of each of them, when some are inserted, changed or deleted.
use mathlib.Core.Path.{◌≡◌, refl, ◌∙◌, subst}
use mathlib.Core.Option.{some}
use mathlib.Core.Bool.{Bool, true, false}
use mathlib.Core.Logic.{inl, inr}
use mathlib.Core.List.{List, [], ◌∷◌}
use native.Mathlib.Omega.{arith}
use myx_im.Base.Tests.{Bool-cases}
use myx_im.Base.Lists.{filter, any, find?, update_where}
use myx_im.Base.Rows.{All, All-map, All-of_any, All-filter, any-filter-false, any-update_where}

module _ {ℓ} {A : Type ℓ} where
  -- No two rows agree.
  abbrev pub Unique : (A → A → Bool) → List A → Type 0
  Unique agree [] = Unit {0}
  Unique agree (x ∷ xs) = (any (agree x) xs ≡ false) × Unique agree xs

  pub Unique-filter :
      (agree : A → A → Bool) (p : A → Bool) (xs : List A)
      → Unique agree xs
      → Unique agree (filter p xs)
  Unique-filter agree p [] u = tt
  Unique-filter agree p (x ∷ xs) u = elim (Bool-cases (p x)) [
    | inl e ↦ rw e (any-filter-false (agree x) p xs u.0, Unique-filter agree p xs u.1)
    | inr e ↦ rw e (Unique-filter agree p xs u.1)
  ]

  -- An assignment that leaves the key alone.
  pub Unique-update_where :
      (agree : A → A → Bool) (p : A → Bool) (f : A → A) (xs : List A)
      → ((a b : A) → agree (f a) b ≡ agree a b)
      → ((a b : A) → agree a (f b) ≡ agree a b)
      → Unique agree xs
      → Unique agree (update_where p f xs)
  Unique-update_where agree p f [] l r u = tt
  Unique-update_where agree p f (x ∷ xs) l r u = (
    elim (Bool-cases (p x)) [
      | inl e ↦ rw e (any-update_where p (agree (f x)) f xs (r (f x)) ∙ same_key xs ∙ u.0)
      | inr e ↦ rw e (any-update_where p (agree x) f xs (r x) ∙ u.0)
    ],
    Unique-update_where agree p f xs l r u.1,
  )
    where
      same_key : (ys : List A) → any (agree (f x)) ys ≡ any (agree x) ys
      same_key [] = refl
      same_key (y ∷ ys) = ground (arith, l x y, same_key ys)

  -- What is left of a deletion has what its condition gives.
  pub All-filter_where :
      (P Q : A → Type 0) (p : A → Bool) (xs : List A)
      → ((a : A) → p a ≡ true → P a → Q a)
      → All P xs
      → All Q (filter p xs)
  All-filter_where P Q p [] f h = tt
  All-filter_where P Q p (x ∷ xs) f h = elim (Bool-cases (p x)) [
    | inl e ↦ rw e (f x e h.0, All-filter_where P Q p xs f h.1)
    | inr e ↦ rw e (All-filter_where P Q p xs f h.1)
  ]

  -- Rows of which none meets a condition.
  pub All-none :
      (P Q : A → Type 0) (p : A → Bool) (xs : List A)
      → ((a : A) → p a ≡ false → P a → Q a)
      → any p xs ≡ false
      → All P xs
      → All Q xs
  All-none P Q p [] f n h = tt
  All-none P Q p (x ∷ xs) f n h = (f x (ground arith) h.0, All-none P Q p xs f (ground arith) h.1)

  -- A row that a deletion does not meet is found as before.
  pub any-filter_kept :
      (p q : A → Bool) (xs : List A)
      → ((a : A) → q a ≡ true → p a ≡ true)
      → any q (filter p xs) ≡ any q xs
  any-filter_kept p q [] f = refl
  any-filter_kept p q (x ∷ xs) f = elim (Bool-cases (q x)) [
    | inl e ↦ ground (arith, f x e)
    | inr e ↦ ground (arith, any-filter_kept p q xs f)
  ]

-- A row that is looked up has what every row has, and meets the condition.
pub found-All {ℓ} :
    {A : Type ℓ} (P : A → Type 0) (p : A → Bool) (xs : List A) {a : A}
    → All (λ x. p x ≡ true → P x) xs
    → find? p xs ≡ some a
    → P a
found-All P p [] h e = absurd (ground arith)
found-All P p (x ∷ xs) {a} h e = elim (Bool-cases (p x)) [
  | inl k ↦ subst P (found_first k) (h.0 k)
  | inr k ↦ found-All P p xs h.1 (ground arith)
]
  where
    found_first : p x ≡ true → x ≡ a
    found_first k = ground arith

-- Where rows that meet a condition agree in a unique key, the row that is looked up is the only one.
pub only_found :
    {A : Type 0} (agree : A → A → Bool) (p : A → Bool) (xs : List A) {a : A}
    → ((x y : A) → p x ≡ true → p y ≡ true → agree x y ≡ true)
    → Unique agree xs
    → find? p xs ≡ some a
    → All (λ x. p x ≡ true → x ≡ a) xs
only_found agree p [] f u e = tt
only_found agree p (x ∷ xs) f u e = elim (Bool-cases (p x)) [
  | inl k ↦ (
    λ _. ground arith,
    All-map _ _ xs (λ y n h. absurd (ground (arith, f x y k h))) (All-of_any (agree x) xs u.0),
  )
  | inr k ↦ (λ h. absurd (ground arith), only_found agree p xs f u.1 (ground arith))
]

-- What holds of the rows that a deletion leaves.
pub ruleset deletion_rules = (All-filter, Unique-filter)
