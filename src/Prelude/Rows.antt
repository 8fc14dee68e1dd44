-- ===== src/Prelude/Rows.antt =====
-- Lists as tables of rows: the first row that passes a test, its replacement, and the number of
-- rows that pass. Also lengths over the native numbers.
use Prim.Native.Nat.{ℕ, suc, ◌+◌, ◌≤◌}
use mathlib.Core.Path.{◌≡◌, refl}
use mathlib.Core.Bool.{Bool, true}
use mathlib.Core.Option.{Option, none, some}
use mathlib.Core.List.{List, [], ◌∷◌, ◌++◌}
use native.Mathlib.Omega.{arith}
use agent_bench_x.Prelude.Tests.{if◌then◌else◌, one_if}

module _ {ℓ} {A : Type ℓ} where
  abbrev pub length : List A → ℕ
  length [] = 0
  length (x ∷ xs) = suc (length xs)

  pub length-append : (xs ys : List A) → length (xs ++ ys) ≡ length xs + length ys
  length-append [] ys = omega arith
  length-append (x ∷ xs) ys = omega (arith, length-append xs ys)

  unfoldable pub find_first : (A → Bool) → List A → Option A
  find_first p [] = none
  find_first p (x ∷ xs) = if p x then some x else find_first p xs

  -- The row that `find_first` finds is overwritten.
  unfoldable pub replace_first : (A → Bool) → A → List A → List A
  replace_first p a [] = []
  replace_first p a (x ∷ xs) = if p x then a ∷ xs else x ∷ replace_first p a xs

  unfoldable pub count_if : (A → Bool) → List A → ℕ
  count_if p [] = 0
  count_if p (x ∷ xs) = one_if (p x) + count_if p xs

  pub find_first-passes :
      (p : A → Bool) (xs : List A) (a : A) → find_first p xs ≡ some a → p a ≡ true
  unfolding find_first
  find_first-passes p [] a h = ground arith
  find_first-passes p (x ∷ xs) a h = ground (arith, find_first-passes p xs a)

  pub count_if-append :
      (p : A → Bool) (xs ys : List A) → count_if p (xs ++ ys) ≡ count_if p xs + count_if p ys
  unfolding count_if
  count_if-append p [] ys = omega arith
  count_if-append p (x ∷ xs) ys = omega (arith, count_if-append p xs ys)

  -- Overwriting a found row moves each count by that row alone.
  pub count_if-replace_first :
      (q p : A → Bool) (a old : A) (xs : List A)
      → find_first p xs ≡ some old
      → count_if q (replace_first p a xs) + one_if (q old) ≡ count_if q xs + one_if (q a)
  unfolding find_first replace_first count_if
  count_if-replace_first q p a old [] h = ground arith
  count_if-replace_first q p a old (x ∷ xs) h = ground (arith, count_if-replace_first q p a old xs)

  pub find_first-replace_first :
      (p : A → Bool) (a old : A) (xs : List A)
      → find_first p xs ≡ some old
      → p a ≡ true
      → find_first p (replace_first p a xs) ≡ some a
  unfolding find_first replace_first
  find_first-replace_first p a old [] h t = ground arith
  find_first-replace_first p a old (x ∷ xs) h t =
      ground (arith, find_first-replace_first p a old xs)

  -- A row that is found is counted.
  pub find_first-counted :
      (p q : A → Bool) (xs : List A) (a : A)
      → find_first p xs ≡ some a
      → one_if (q a) ≤ count_if q xs
  unfolding find_first count_if
  find_first-counted p q [] a h = ground arith
  find_first-counted p q (x ∷ xs) a h = ground (arith, find_first-counted p q xs a)

  -- Nothing is found exactly when nothing is counted.
  pub find_first-none : (p : A → Bool) (xs : List A) → find_first p xs ≡ none → count_if p xs ≡ 0
  unfolding find_first count_if
  find_first-none p [] h = refl
  find_first-none p (x ∷ xs) h = ground (arith, find_first-none p xs)

  pub find_first-none_of_count :
      (p : A → Bool) (xs : List A) → count_if p xs ≡ 0 → find_first p xs ≡ none
  unfolding find_first count_if
  find_first-none_of_count p [] h = refl
  find_first-none_of_count p (x ∷ xs) h = ground (arith, find_first-none_of_count p xs)

  pub count_if_mono :
      (p q : A → Bool) (xs : List A)
      → ((a : A) → p a ≡ true → q a ≡ true)
      → count_if p xs ≤ count_if q xs
  unfolding count_if
  count_if_mono p q [] h = omega arith
  count_if_mono p q (x ∷ xs) h = ground (arith, h x, count_if_mono p q xs h)

  pub find_first-append_left :
      (p : A → Bool) (xs ys : List A) (a : A)
      → find_first p xs ≡ some a
      → find_first p (xs ++ ys) ≡ some a
  unfolding find_first
  find_first-append_left p [] ys a h = ground arith
  find_first-append_left p (x ∷ xs) ys a h = ground (arith, find_first-append_left p xs ys a)

  pub find_first-append_right :
      (p : A → Bool) (xs ys : List A)
      → find_first p xs ≡ none
      → find_first p (xs ++ ys) ≡ find_first p ys
  unfolding find_first
  find_first-append_right p [] ys h = refl
  find_first-append_right p (x ∷ xs) ys h = ground (arith, find_first-append_right p xs ys)
