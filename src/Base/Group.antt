-- ===== src/Base/Group.antt =====
-- GROUP BY and COUNT(DISTINCT …): the distinct keys of rows, and sums over rows and over groups.
use Prim.Native.Nat.{ℕ, ◌+◌}
use mathlib.Core.Path.{◌≡◌, refl, ap, ◌∙◌}
use mathlib.Core.Logic.{◌↔◌}
use mathlib.Core.Bool.{Bool, true, false, not, ◌||◌}
use mathlib.Core.List.{List, [], ◌∷◌, ◌++◌, map}
use native.Mathlib.Omega.{arith}
use glimt.Base.Tests.{if◌then◌else◌}
use glimt.Base.Lists.{length, keep, All, All-map, All-keep, All-mapped}

module _ {A : Type 0} where
  unfoldable pub sum_of : (A → ℕ) → List A → ℕ
  sum_of f [] = 0
  sum_of f (x ∷ xs) = f x + sum_of f xs

  pub sum_of-append : (f : A → ℕ) (xs ys : List A) → sum_of f (xs ++ ys) ≡ sum_of f xs + sum_of f ys
  unfolding sum_of
  sum_of-append f [] ys = omega arith
  sum_of-append f (x ∷ xs) ys = omega (arith, sum_of-append f xs ys)

  pub sum_of-add :
      (f g : A → ℕ) (xs : List A) → sum_of (λ x. f x + g x) xs ≡ sum_of f xs + sum_of g xs
  unfolding sum_of
  sum_of-add f g [] = omega arith
  sum_of-add f g (x ∷ xs) = omega (arith, sum_of-add f g xs)

  pub sum_of-zero : (xs : List A) → sum_of (λ x. 0) xs ≡ 0
  unfolding sum_of
  sum_of-zero [] = refl
  sum_of-zero (x ∷ xs) = omega (arith, sum_of-zero xs)

  -- Functions that agree on the rows have one sum.
  pub sum_of-agree :
      (f g : A → ℕ) (xs : List A) → All (λ x. f x ≡ g x) xs → sum_of f xs ≡ sum_of g xs
  unfolding sum_of
  sum_of-agree f g [] h = refl
  sum_of-agree f g (x ∷ xs) h = omega (arith, h.0, sum_of-agree f g xs h.1)

  pub sum_of-same : (f g : A → ℕ) (xs : List A) → ((x : A) → f x ≡ g x) → sum_of f xs ≡ sum_of g xs
  unfolding sum_of
  sum_of-same f g [] h = refl
  sum_of-same f g (x ∷ xs) h = omega (arith, h x, sum_of-same f g xs h)

  -- A WHERE clause under a sum is a conditional under it.
  pub sum_of-keep :
      (f : A → ℕ) (p : A → Bool) (xs : List A)
      → sum_of f (keep p xs) ≡ sum_of (λ x. if p x then f x else 0) xs
  unfolding sum_of
  sum_of-keep f p [] = refl
  sum_of-keep f p (x ∷ xs) = ground (arith, sum_of-keep f p xs)

module _ {A B : Type 0} where
  pub sum_of-map :
      (f : B → ℕ) (g : A → B) (xs : List A) → sum_of f (map g xs) ≡ sum_of (λ x. f (g x)) xs
  unfolding sum_of
  sum_of-map f g [] = refl
  sum_of-map f g (x ∷ xs) = omega (arith, sum_of-map f g xs)

module _ {K : Type 0} (eq : K → K → Bool) where
  unfoldable pub has : K → List K → Bool
  has k [] = false
  has k (j ∷ ks) = eq k j || has k ks

  -- The keys, each where it stands first.
  unfoldable pub distinct : List K → List K
  distinct [] = []
  distinct (k ∷ ks) = k ∷ keep (λ j. not (eq k j)) (distinct ks)

  unfoldable pub count_distinct : List K → ℕ
  unfolding distinct
  count_distinct ks = length (distinct ks)

-- SELECT agg FROM rows GROUP BY key
module _ {K A R : Type 0} (eq : K → K → Bool) (key : A → K) (agg : K → List A → R) where
  unfoldable pub group_by : List A → List R
  group_by rows = map (λ k. agg k (keep (λ r. eq (key r) k) rows)) (distinct eq (map key rows))

module _ {K A R : Type 0} (eq : K → K → Bool) (key : A → K) (agg : K → List A → R) where
  -- What every key of the rows gives its group holds of every group.
  pub All-group_by :
      (P : R → Type 0) (rows : List A)
      → All (λ r. (rs : List A) → P (agg (key r) rs)) rows
      → All P (group_by eq key agg rows)
  unfolding group_by distinct
  All-group_by P rows h =
      let Q : K → Type 0 = λ k. (rs : List A) → P (agg k rs) in
      All-mapped P (λ k. agg k (keep (λ r. eq (key r) k) rows)) (distinct eq (map key rows))
        (All-map Q (λ k. P (agg k (keep (λ r. eq (key r) k) rows))) (λ k f. f _)
          (distinct eq (map key rows)) (All-distinct Q (map key rows) (All-mapped Q key rows h)))
    where
      All-distinct : (Q : K → Type 0) (ks : List K) → All Q ks → All Q (distinct eq ks)
      All-distinct Q [] h = tt
      All-distinct Q (k ∷ ks) h =
          (h.0, All-keep Q (λ j. not (eq k j)) (distinct eq ks) (All-distinct Q ks h.1))

module _ {K : Type 0} (eq : K → K → Bool) (eq_iff : (a b : K) → (eq a b ≡ true) ↔ (a ≡ b)) where
  -- What a key that is left out adds is gone from the sum.
  hit-keep :
      (j k : K) (x : ℕ) (ks : List K)
      → sum_of (λ i. if eq j i then x else 0) (keep (λ i. not (eq k i)) ks)
        ≡ (if eq j k then 0 else sum_of (λ i. if eq j i then x else 0) ks)
  unfolding sum_of
  hit-keep j k x [] = ground arith
  hit-keep j k x (i ∷ ks) =
      ground (arith, hit-keep j k x ks, eq_iff j i, eq_iff k i, eq_iff j k, eq_iff k j, eq_iff i k)

  -- A key meets the distinct keys at most once.
  pub sum_of-distinct :
      (j : K) (x : ℕ) (ks : List K)
      → sum_of (λ i. if eq j i then x else 0) (distinct eq ks) ≡ (if has eq j ks then x else 0)
  unfolding sum_of distinct has
  sum_of-distinct j x [] = refl
  sum_of-distinct j x (k ∷ ks) =
      ground (arith, hit-keep j k x (distinct eq ks), sum_of-distinct j x ks)

  module _ {A : Type 0} (key : A → K) (f : A → ℕ) where
    sum_of-groups_has :
        (rows : List A) (ks : List K)
        → sum_of (λ k. sum_of (λ r. if eq (key r) k then f r else 0) rows) (distinct eq ks)
          ≡ sum_of (λ r. if has eq (key r) ks then f r else 0) rows
    unfolding sum_of
    sum_of-groups_has [] ks = sum_of-zero (distinct eq ks)
    sum_of-groups_has (r ∷ rows) ks =
        sum_of-add (λ k. if eq (key r) k then f r else 0)
          (λ k. sum_of (λ s. if eq (key s) k then f s else 0) rows) (distinct eq ks)
        ∙ omega (arith, sum_of-distinct (key r) (f r) ks, sum_of-groups_has rows ks)

    has-more :
        (k : K) (rows : List A) (xs : List A)
        → All (λ r. has eq (key r) (map key xs) ≡ true) rows
        → All (λ r. has eq (key r) (k ∷ map key xs) ≡ true) rows
    unfolding has
    has-more k [] xs h = tt
    has-more k (r ∷ rows) xs h = (ground arith, has-more k rows xs h.1)

    has-own : (rows : List A) → All (λ r. has eq (key r) (map key rows) ≡ true) rows
    has-own [] = tt
    has-own (r ∷ rows) = (
      unfold has in ground (arith, eq_iff (key r) (key r)),
      has-more (key r) rows rows (has-own rows),
    )

    -- The sums of the groups add up to the sum of the rows.
    pub sum_of-groups :
        (rows : List A)
        → sum_of
            (λ k. sum_of (λ r. if eq (key r) k then f r else 0) rows)
            (distinct eq (map key rows))
          ≡ sum_of f rows
    sum_of-groups rows =
        sum_of-groups_has rows (map key rows)
        ∙ sum_of-agree (λ r. if has eq (key r) (map key rows) then f r else 0) f rows
            (All-map (λ r. has eq (key r) (map key rows) ≡ true)
              (λ r. (if has eq (key r) (map key rows) then f r else 0) ≡ f r) (λ r h. rw h) rows
              (has-own rows))

  module _ {A : Type 0} (key : A → K) (f : A → ℕ) where
    -- The rows of one group, where a test of the key lets them through.
    group_part :
        (p : K → Bool) (k : K) (rows : List A)
        → (if p k then sum_of f (keep (λ r. eq (key r) k) rows) else 0)
          ≡ sum_of (λ r. if eq (key r) k then (if p (key r) then f r else 0) else 0) rows
    unfolding sum_of
    group_part p k [] = ground arith
    group_part p k (r ∷ rows) =
        ground (arith, group_part p k rows, eq_iff (key r) k, λ (e : key r ≡ k). ap p e)

    -- The sum of a column over the groups that pass a test of their keys is the sum over the rows that
    -- pass it, if the column is the sum of its group.
    pub sum_of-group_by :
        {R : Type 0} (agg : K → List A → R) (column : R → ℕ) (p : K → Bool) (rows : List A)
        → ((k : K) (rs : List A) → column (agg k rs) ≡ (if p k then sum_of f rs else 0))
        → sum_of column (group_by eq key agg rows) ≡ sum_of (λ r. if p (key r) then f r else 0) rows
    unfolding group_by
    sum_of-group_by agg column p rows h =
        sum_of-map column (λ k. agg k (keep (λ r. eq (key r) k) rows)) (distinct eq (map key rows))
        ∙ sum_of-same _ _ (distinct eq (map key rows))
            (λ k. h k (keep (λ r. eq (key r) k) rows) ∙ group_part p k rows)
        ∙ sum_of-groups key (λ r. if p (key r) then f r else 0) rows

module _ {A : Type 0} where
  pub sum_of-count :
      (p : A → Bool) (xs : List A) → sum_of (λ x. if p x then 1 else 0) xs ≡ length (keep p xs)
  unfolding sum_of
  sum_of-count p [] = refl
  sum_of-count p (x ∷ xs) = ground (arith, sum_of-count p xs)
