-- ===== src/Spends/Aggregate.antt =====
-- `aggregate_spends` of spends.rs, as a function of the set of spends seen.
use safe_network.Base.{
  ℕ, zero, suc, ◌≤◌, List, [], ◌∷◌, ◌++◌, true, ◌&&◌, ◌≡◌, ◌≢◌, refl, sym, ◌∙◌, ap, arith, filter,
  take, length, All, All-take, filter-All, length-take-le, Ordering,
}
use safe_network.Base.Order.{Ord, eqb→eq}
use safe_network.Base.SortedSet.{
  insert, contains, extend, collect, IsSorted, extend-IsSorted, collect-IsSorted, contains-collect,
  contains-extend, contains-filter, contains-append, filter-IsSorted, set_ext, All-contains,
}
use safe_network.Protocol.Ledger.{Ledger}
use safe_network.Spends.{sort_insert, sorted_by, is_valid, aggregate_spends}

module _ {ℓ} {A : Type ℓ} (o : Ord A) where
  sort_insert_below :
      (x : A) (s : List A) → All (λ y. o.cmp x y ≡ Ordering.lt) s → sort_insert o x s ≡ x ∷ s
  unfolding sort_insert
  sort_insert_below x [] h = refl
  sort_insert_below x (y ∷ ys) h = ground arith

  -- Sorting what is sorted changes nothing.
  pub sorted_by-IsSorted : (s : List A) → IsSorted o s → sorted_by o s ≡ s
  unfolding sorted_by
  sorted_by-IsSorted [] h = refl
  sorted_by-IsSorted (x ∷ xs) h = rw (sorted_by-IsSorted xs h.1) (sort_insert_below x xs h.0)

  pub take-IsSorted : (n : ℕ) (s : List A) → IsSorted o s → IsSorted o (take n s)
  take-IsSorted zero s h = tt
  take-IsSorted (suc n) [] h = tt
  take-IsSorted (suc n) (x ∷ xs) h =
      (All-take (λ y. o.cmp x y ≡ Ordering.lt) n xs h.0, take-IsSorted n xs h.1)

  take-take_le : (m n : ℕ) (s : List A) → m ≤ n → take m (take n s) ≡ take m s
  take-take_le zero n s h = refl
  take-take_le (suc m) zero s h = absurd (omega arith)
  take-take_le (suc m) (suc n) [] h = refl
  take-take_le (suc m) (suc n) (x ∷ xs) h = ap (◌∷◌ x) (take-take_le m n xs (omega arith))

  take-cons_take : (n : ℕ) (y : A) (ys : List A) → take n (y ∷ take n ys) ≡ take n (y ∷ ys)
  take-cons_take zero y ys = refl
  take-cons_take (suc n) y ys = ap (◌∷◌ y) (take-take_le n (suc n) ys (omega arith))

  take-insert :
      (n : ℕ) (x : A) (s : List A) → take n (insert o x s) ≡ take n (insert o x (take n s))
  unfolding insert
  take-insert zero x s = refl
  take-insert (suc n) x [] = refl
  take-insert (suc n) x (y ∷ ys) =
      ground (arith, take-insert n x ys, take-cons_take n y ys, take-take_le n n ys (omega arith))

  -- The least `n` elements of an extension depend on the least `n` elements of what is extended.
  pub take-extend :
      (n : ℕ) (s xs : List A) → take n (extend o s xs) ≡ take n (extend o (take n s) xs)
  unfolding extend
  take-extend n s [] = sym (take-take_le n n s (omega arith))
  take-extend n s (x ∷ xs) =
      take-extend n (insert o x s) xs
      ∙ ap (λ t. take n (extend o t xs)) (take-insert n x s)
      ∙ sym (take-extend n (insert o x (take n s)) xs)

  pub contains-take :
      (n : ℕ) (x : A) (s : List A) → contains o x (take n s) ≡ true → contains o x s ≡ true
  unfolding contains
  contains-take zero x s h = cc
  contains-take (suc n) x [] h = cc
  contains-take (suc n) x (y ∷ ys) h = ground (arith, contains-take n x ys)

  -- Two distinct elements make a list of at least two.
  pub two_members :
      (x y : A) (s : List A)
      → x ≢ y
      → contains o x s ≡ true
      → contains o y s ≡ true
      → length (take 2 s) ≡ 2
  unfolding contains
  two_members x y [] e h k = cc
  two_members x y (z ∷ []) e h k = ground (arith, eqb→eq o x z, eqb→eq o y z)
  two_members x y (z ∷ w ∷ s) e h k = refl

module _ (b : Ledger) (id : b.DbcId) where
  open b use {SignedSpend, spend_ord as o}

  valid_set : List SignedSpend → List SignedSpend
  valid_set spends = filter (is_valid b id) (collect o spends)

  valid_set-IsSorted : (xs : List SignedSpend) → IsSorted o (valid_set xs)
  unfolding valid_set
  valid_set-IsSorted xs = filter-IsSorted o (is_valid b id) (collect o xs) (collect-IsSorted o xs)

  contains-valid_set :
      (x : SignedSpend) (xs : List SignedSpend)
      → contains o x (valid_set xs) ≡ (is_valid b id x && contains o x xs)
  unfolding valid_set
  contains-valid_set x xs =
      ground (arith, contains-filter o (is_valid b id) x (collect o xs), contains-collect o x xs)

  aggregate-eq : (xs : List SignedSpend) → aggregate_spends b xs id ≡ take 2 (valid_set xs)
  aggregate-eq xs =
      unfold aggregate_spends valid_set in
      ap (take 2) (sorted_by-IsSorted o (valid_set xs) (valid_set-IsSorted xs))

  -- The aggregate has at most two spends, ascending with no spend twice, each valid for the id.
  pub aggregate_bounds :
      (xs : List SignedSpend)
      → (length (aggregate_spends b xs id) ≤ 2)
        × IsSorted o (aggregate_spends b xs id)
        × All (λ s. is_valid b id s ≡ true) (aggregate_spends b xs id)
  aggregate_bounds xs = rw (aggregate-eq xs) (
    length-take-le 2 (valid_set xs),
    take-IsSorted o 2 (valid_set xs) (valid_set-IsSorted xs),
    All-take (λ s. is_valid b id s ≡ true) 2 (valid_set xs)
        (unfold valid_set in filter-All (is_valid b id) (collect o xs)),
  )

  -- Every spend of the aggregate was seen.
  pub aggregate_members :
      (xs : List SignedSpend) (x : SignedSpend)
      → contains o x (aggregate_spends b xs id) ≡ true
      → contains o x xs ≡ true
  aggregate_members xs x h =
      let seen : contains o x (take 2 (valid_set xs)) ≡ true = rw aggregate-eq at h in
      ground (arith, contains-take o 2 x (valid_set xs) seen, contains-valid_set x xs)

  -- If the same spends were seen, in whatever order and however often, the aggregates are equal.
  pub aggregate_ext :
      (xs ys : List SignedSpend)
      → ((x : SignedSpend) → contains o x xs ≡ contains o x ys)
      → aggregate_spends b xs id ≡ aggregate_spends b ys id
  aggregate_ext xs ys same =
      aggregate-eq xs
      ∙ ap (take 2) (
          set_ext o (valid_set xs) (valid_set ys) (valid_set-IsSorted xs) (valid_set-IsSorted ys)
            (λ x. ground (arith, same x, contains-valid_set x xs, contains-valid_set x ys)))
      ∙ sym (aggregate-eq ys)

  -- Two distinct spends that are both seen and both valid for the id are detected, whatever else
  -- was seen: the aggregate has two spends.
  pub aggregate_detects :
      (xs : List SignedSpend) (x y : SignedSpend)
      → x ≢ y
      → is_valid b id x ≡ true
      → is_valid b id y ≡ true
      → contains o x xs ≡ true
      → contains o y xs ≡ true
      → length (aggregate_spends b xs id) ≡ 2
  aggregate_detects xs x y e v w h k = rw (aggregate-eq xs) (
      two_members o x y (valid_set xs) e (ground (arith, contains-valid_set x xs))
        (ground (arith, contains-valid_set y xs)))

  valid_set-append :
      (s xs ys : List SignedSpend)
      → IsSorted o s
      → ((x : SignedSpend) → contains o x s ≡ contains o x (valid_set xs))
      → valid_set (xs ++ ys) ≡ extend o s (valid_set ys)
  valid_set-append s xs ys h same =
      set_ext o (valid_set (xs ++ ys)) (extend o s (valid_set ys)) (valid_set-IsSorted (xs ++ ys))
        (extend-IsSorted o s (valid_set ys) h)
        (λ x. ground (
          arith,
          same x,
          contains-valid_set x (xs ++ ys),
          contains-valid_set x xs,
          contains-valid_set x ys,
          contains-append o x xs ys,
          contains-extend o x s (valid_set ys),
        ))

  -- The valid part of an aggregate is the aggregate.
  valid_set-aggregate :
      (xs : List SignedSpend) (x : SignedSpend)
      → contains o x (aggregate_spends b xs id)
        ≡ contains o x (valid_set (aggregate_spends b xs id))
  valid_set-aggregate xs x =
      let seen = aggregate_spends b xs id in
      let valid = λ (h : contains o x seen ≡ true).
        All-contains o (λ s. is_valid b id s ≡ true) x seen h (aggregate_bounds xs).2 in
      ground (arith, contains-valid_set x seen, valid)

  -- A node that keeps only the aggregate of the spends it has seen, and aggregates it with those
  -- that arrive, holds the aggregate of all that it has ever seen.
  pub aggregate_stable :
      (xs ys : List SignedSpend)
      → aggregate_spends b (aggregate_spends b xs id ++ ys) id ≡ aggregate_spends b (xs ++ ys) id
  aggregate_stable xs ys =
      let kept = aggregate_spends b xs id in
      aggregate-eq (kept ++ ys)
      ∙ ap (take 2) (valid_set-append kept kept ys (aggregate_bounds xs).1 (valid_set-aggregate xs))
      ∙ ap (λ s. take 2 (extend o s (valid_set ys))) (aggregate-eq xs)
      ∙ sym (take-extend o 2 (valid_set xs) (valid_set ys))
      ∙ ap (take 2)
          (sym (valid_set-append (valid_set xs) xs ys (valid_set-IsSorted xs) (λ x. refl)))
      ∙ sym (aggregate-eq (xs ++ ys))
