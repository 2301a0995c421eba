-- ===== src/Base/Rows.antt =====
-- Facts about the rows of a table: what an `UPDATE` and a `DELETE` do to counts and to properties
-- that every row has.
use mathlib.Core.Path.{◌≡◌, refl}
use mathlib.Core.Bool.{Bool, false, ◌&&◌, not}
use mathlib.Core.Logic.{inl, inr}
use mathlib.Core.List.{List, [], ◌∷◌}
use native.Mathlib.Omega.{arith}
use myx_im.Base.Tests.{if◌then◌else◌, Bool-cases}
use myx_im.Base.Lists.{is_some, length, filter, any, count_if, update_where, find?}
use mathlib.Core.Option.{none}

-- Every row has the property.
abbrev pub All {ℓ} : {A : Type ℓ} → (A → Type 0) → List A → Type 0
All P [] = Unit {0}
All P (x ∷ xs) = P x × All P xs

module _ {ℓ} {A : Type ℓ} where
  pub All-map : (P Q : A → Type 0) (xs : List A) → ((a : A) → P a → Q a) → All P xs → All Q xs
  All-map P Q [] f h = tt
  All-map P Q (x ∷ xs) f h = (f x h.0, All-map P Q xs f h.1)

  pub All-filter : (P : A → Type 0) (p : A → Bool) (xs : List A) → All P xs → All P (filter p xs)
  All-filter P p [] h = tt
  All-filter P p (x ∷ xs) h = elim (Bool-cases (p x)) [
    | inl e ↦ rw e (h.0, All-filter P p xs h.1)
    | inr e ↦ rw e (All-filter P p xs h.1)
  ]

  -- An `UPDATE` keeps what every row has if its assignment does at the rows that it changes.
  pub All-update_where :
      (P Q : A → Type 0) (p : A → Bool) (f : A → A) (xs : List A)
      → ((a : A) → P a → Q (if p a then f a else a))
      → All P xs
      → All Q (update_where p f xs)
  All-update_where P Q p f [] g h = tt
  All-update_where P Q p f (x ∷ xs) g h = (g x h.0, All-update_where P Q p f xs g h.1)

  -- An `UPDATE` that meets no row changes nothing.
  pub update_where_none :
      (p : A → Bool) (f : A → A) (xs : List A) → any p xs ≡ false → update_where p f xs ≡ xs
  update_where_none p f [] h = refl
  update_where_none p f (x ∷ xs) h = ground (arith, update_where_none p f xs)

  -- A test that the assignment leaves alone is met by as many rows afterwards.
  pub any-update_where :
      (p q : A → Bool) (f : A → A) (xs : List A)
      → ((a : A) → q (f a) ≡ q a)
      → any q (update_where p f xs) ≡ any q xs
  any-update_where p q f [] h = refl
  any-update_where p q f (x ∷ xs) h = ground (arith, h x, any-update_where p q f xs h)

  pub filter_none : (p : A → Bool) (xs : List A) → any p xs ≡ false → filter p xs ≡ []
  filter_none p [] h = refl
  filter_none p (x ∷ xs) h = ground (arith, filter_none p xs)

  pub count_if_none : (p : A → Bool) (xs : List A) → any p xs ≡ false → count_if p xs ≡ 0
  count_if_none p [] h = omega arith
  count_if_none p (x ∷ xs) h = ground (arith, count_if_none p xs)

  pub any_of_All :
      {P : A → Type 0} (p : A → Bool) (xs : List A)
      → ((a : A) → P a → p a ≡ false)
      → All P xs
      → any p xs ≡ false
  any_of_All p [] f h = refl
  any_of_All p (x ∷ xs) f h = ground (arith, f x h.0, any_of_All p xs f h.1)

  -- After `DELETE FROM … WHERE p` no row meets the condition.
  pub any-filter-not : (p : A → Bool) (xs : List A) → any p (filter (λ a. not (p a)) xs) ≡ false
  any-filter-not p [] = refl
  any-filter-not p (x ∷ xs) = ground (arith, any-filter-not p xs)

  -- A deletion leaves no row that was not there.
  pub any-filter-false :
      (p q : A → Bool) (xs : List A) → any p xs ≡ false → any p (filter q xs) ≡ false
  any-filter-false p q [] h = refl
  any-filter-false p q (x ∷ xs) h = ground (arith, any-filter-false p q xs)

  pub find?-none : (p : A → Bool) (xs : List A) → any p xs ≡ false → find? p xs ≡ none
  find?-none p [] h = refl
  find?-none p (x ∷ xs) h = ground (arith, find?-none p xs)

  -- Where no row meets a condition, each row fails it.
  pub All-of_any : (p : A → Bool) (xs : List A) → any p xs ≡ false → All (λ a. p a ≡ false) xs
  All-of_any p [] h = tt
  All-of_any p (x ∷ xs) h = (ground arith, All-of_any p xs (ground arith))

  pub is_some-find? : (p : A → Bool) (xs : List A) → is_some (find? p xs) ≡ any p xs
  is_some-find? p [] = refl
  is_some-find? p (x ∷ xs) = ground (arith, is_some-find? p xs)

  pub any-filter : (p q : A → Bool) (xs : List A) → any q (filter p xs) ≡ any (λ x. p x && q x) xs
  any-filter p q [] = refl
  any-filter p q (x ∷ xs) = ground (arith, any-filter p q xs)

  pub length-filter : (p : A → Bool) (xs : List A) → length (filter p xs) ≡ count_if p xs
  length-filter p [] = refl
  length-filter p (x ∷ xs) = ground (arith, length-filter p xs)
