-- ===== src/Base/SortedSet.antt =====
-- `BTreeSet` of the standard library, as the strictly ascending list of its elements. A `HashSet` is
-- modelled by the same list: the code never depends on the order in which it is iterated.
use Prim.Native.Nat.{Ordering}
use mathlib.Core.Path.{◌≡◌, refl, ap₂, sym}
use mathlib.Core.Bool.{Bool, true, false, ◌||◌, ◌&&◌}
use mathlib.Core.List.{List, [], ◌∷◌, ◌++◌}
use mathlib.Core.Logic.{inl, inr}
use native.Mathlib.Omega.{arith}
use safe_network.Base.Tests.{Bool-cases}
use safe_network.Base.Lists.{All, All-map, All-filter, filter}
use safe_network.Base.Order.{Ord, eqb, eqb_refl, eqb→eq, lt→neqb}

module _ {ℓ} {A : Type ℓ} (o : Ord A) where
  -- `insert`: an element that is there already is left as it is.
  unfoldable pub insert : A → List A → List A
  insert x [] = x ∷ []
  insert x (y ∷ ys) =
      let rest = insert x ys in
      elim (o.cmp x y) [ Ordering.lt ↦ x ∷ y ∷ ys | Ordering.eq ↦ y ∷ ys | Ordering.gt ↦ y ∷ rest ]

  unfoldable pub contains : A → List A → Bool
  contains x [] = false
  contains x (y ∷ ys) = eqb o x y || contains x ys

  -- `s.extend(xs)`
  unfoldable pub extend : List A → List A → List A
  unfolding insert
  extend s [] = s
  extend s (x ∷ xs) = extend (insert x s) xs

  -- `xs.into_iter().collect()`
  unfoldable pub collect : List A → List A
  unfolding extend
  collect xs = extend [] xs

  abbrev pub IsSorted : List A → Type ℓ
  IsSorted [] = Unit
  IsSorted (x ∷ xs) = All (λ y. o.cmp x y ≡ Ordering.lt) xs × IsSorted xs

  above-insert :
      (x y : A) (ys : List A)
      → o.cmp y x ≡ Ordering.lt
      → All (λ z. o.cmp y z ≡ Ordering.lt) ys
      → All (λ z. o.cmp y z ≡ Ordering.lt) (insert x ys)
  unfolding insert
  above-insert x y [] h k = (h, tt)
  above-insert x y (z ∷ zs) h k = ground (arith, above-insert x y zs h k.1)

  pub insert-IsSorted : (x : A) (s : List A) → IsSorted s → IsSorted (insert x s)
  unfolding insert
  insert-IsSorted x [] h = (tt, tt)
  insert-IsSorted x (y ∷ ys) h =
      let below : o.cmp x y ≡ Ordering.lt → All (λ z. o.cmp x z ≡ Ordering.lt) ys =
        λ l. All-map (λ z m. o.cmp_trans x y z l m) ys h.0 in
      ground (arith, below, above-insert x y ys, o.cmp_gt x y, insert-IsSorted x ys h.1)

  pub contains-insert :
      (x y : A) (s : List A) → contains x (insert y s) ≡ (eqb o x y || contains x s)
  unfolding insert contains
  contains-insert x y [] = refl
  contains-insert x y (z ∷ zs) = ground (arith, contains-insert x y zs, o.cmp_eq y z, o.cmp_eq x z)

  pub extend-IsSorted : (s xs : List A) → IsSorted s → IsSorted (extend s xs)
  unfolding extend
  extend-IsSorted s [] h = h
  extend-IsSorted s (x ∷ xs) h = extend-IsSorted (insert x s) xs (insert-IsSorted x s h)

  pub collect-IsSorted : (xs : List A) → IsSorted (collect xs)
  unfolding collect
  collect-IsSorted xs = extend-IsSorted [] xs tt

  pub contains-extend :
      (x : A) (s xs : List A) → contains x (extend s xs) ≡ (contains x s || contains x xs)
  unfolding extend contains
  contains-extend x s [] = ground arith
  contains-extend x s (y ∷ ys) =
      ground (arith, contains-extend x (insert y s) ys, contains-insert x y s)

  pub contains-collect : (x : A) (xs : List A) → contains x (collect xs) ≡ contains x xs
  unfolding collect contains
  contains-collect x xs = contains-extend x [] xs

  -- What lies above a bound does not contain what lies at or below it.
  pub not-contains_below :
      (x : A) (s : List A) → All (λ y. o.cmp x y ≡ Ordering.lt) s → contains x s ≡ false
  unfolding contains
  not-contains_below x [] h = refl
  not-contains_below x (y ∷ ys) h = ground (arith, lt→neqb o x y h.0, not-contains_below x ys h.1)

  same_tail :
      (x y : A) (xs ys : List A)
      → x ≡ y
      → IsSorted (x ∷ xs)
      → IsSorted (y ∷ ys)
      → ((z : A) → contains z (x ∷ xs) ≡ contains z (y ∷ ys))
      → (z : A) → contains z xs ≡ contains z ys
  unfolding contains
  same_tail x y xs ys e h k same z =
      ground (arith, same z, not-contains_below x xs h.0, not-contains_below y ys k.0, eqb→eq o z x)

  -- The head of the smaller of two sorted lists is not an element of the other.
  head_absent :
      (x y : A) (xs ys : List A)
      → o.cmp x y ≡ Ordering.lt
      → IsSorted (y ∷ ys)
      → ((z : A) → contains z (x ∷ xs) ≡ contains z (y ∷ ys))
      → ⊥
  unfolding contains
  head_absent x y xs ys l k same = ground (
    arith,
    same x,
    eqb_refl o x,
    lt→neqb o x y l,
    not-contains_below x ys (All-map (λ z m. o.cmp_trans x y z l m) ys k.0),
  )

  same_head :
      (x y : A) (xs ys : List A)
      → IsSorted (x ∷ xs)
      → IsSorted (y ∷ ys)
      → ((z : A) → contains z (x ∷ xs) ≡ contains z (y ∷ ys))
      → x ≡ y
  same_head x y xs ys h k same = go (o.cmp x y) refl
    where
      go : (c : Ordering) → o.cmp x y ≡ c → x ≡ y
      go Ordering.lt e = absurd (head_absent x y xs ys e k same)
      go Ordering.gt e = absurd (head_absent y x ys xs (o.cmp_gt x y e) h (λ z. sym (same z)))
      go Ordering.eq e = o.cmp_eq x y e

  -- Two sets with the same elements are equal.
  pub set_ext :
      (s t : List A) → IsSorted s → IsSorted t → ((x : A) → contains x s ≡ contains x t) → s ≡ t
  unfolding contains
  set_ext [] [] h k same = refl
  set_ext [] (y ∷ ys) h k same = ground (arith, same y, eqb_refl o y)
  set_ext (x ∷ xs) [] h k same = ground (arith, same x, eqb_refl o x)
  set_ext (x ∷ xs) (y ∷ ys) h k same =
      let e : x ≡ y = same_head x y xs ys h k same in
      ap₂ ◌∷◌ e (set_ext xs ys h.1 k.1 (same_tail x y xs ys e h k same))

  -- Extending by an extension, in either order, gives one set.
  pub extend_comm : (s t : List A) → IsSorted s → IsSorted t → extend s t ≡ extend t s
  extend_comm s t h k =
      set_ext (extend s t) (extend t s) (extend-IsSorted s t h) (extend-IsSorted t s k)
        (λ x. ground (arith, contains-extend x s t, contains-extend x t s))

  pub extend_assoc : (s t u : List A) → IsSorted s → extend (extend s t) u ≡ extend s (extend t u)
  extend_assoc s t u h =
      set_ext (extend (extend s t) u) (extend s (extend t u))
        (extend-IsSorted (extend s t) u (extend-IsSorted s t h)) (extend-IsSorted s (extend t u) h)
        (λ x. ground (
          arith,
          contains-extend x (extend s t) u,
          contains-extend x s t,
          contains-extend x s (extend t u),
          contains-extend x t u,
        ))

  pub extend_self : (s : List A) → IsSorted s → extend s s ≡ s
  extend_self s h =
      set_ext (extend s s) s (extend-IsSorted s s h) h (λ x. ground (arith, contains-extend x s s))

  -- A predicate on the elements, through insertion.
  pub All-insert {κ} : (P : A → Type κ) (x : A) (s : List A) → P x → All P s → All P (insert x s)
  unfolding insert
  All-insert P x [] h k = (h, tt)
  All-insert P x (y ∷ ys) h k =
      elim (o.cmp x y)
        as (λ c. All P (elim c [
          | Ordering.lt ↦ x ∷ y ∷ ys
          | Ordering.eq ↦ y ∷ ys
          | Ordering.gt ↦ y ∷ insert x ys
        ])) [
          | Ordering.lt ↦ (h, k)
          | Ordering.eq ↦ k
          | Ordering.gt ↦ (k.0, All-insert P x ys h k.1)
        ]

  pub All-extend {κ} : (P : A → Type κ) (s xs : List A) → All P s → All P xs → All P (extend s xs)
  unfolding extend
  All-extend P s [] h k = h
  All-extend P s (x ∷ xs) h k = All-extend P (insert x s) xs (All-insert P x s k.0 h) k.1

  pub filter-IsSorted : (p : A → Bool) (s : List A) → IsSorted s → IsSorted (filter p s)
  filter-IsSorted p [] h = tt
  filter-IsSorted p (x ∷ xs) h =
      ground (arith, All-filter (λ y. o.cmp x y ≡ Ordering.lt) p xs h.0, filter-IsSorted p xs h.1)

  pub contains-filter :
      (p : A → Bool) (x : A) (s : List A) → contains x (filter p s) ≡ (p x && contains x s)
  unfolding contains
  contains-filter p x [] = ground arith
  contains-filter p x (y ∷ ys) = ground (arith, contains-filter p x ys, eqb→eq o x y)

  pub All-contains {κ} : (P : A → Type κ) (x : A) (s : List A) → contains x s ≡ true → All P s → P x
  unfolding contains
  All-contains P x [] h k = cc
  All-contains P x (y ∷ ys) h k = elim (Bool-cases (eqb o x y)) [
    | inl e ↦ rw (eqb→eq o x y e) k.0
    | inr e ↦ All-contains P x ys (ground arith) k.1
  ]

  pub contains-append :
      (x : A) (s t : List A) → contains x (s ++ t) ≡ (contains x s || contains x t)
  unfolding contains
  contains-append x [] t = refl
  contains-append x (y ∷ ys) t = ground (arith, contains-append x ys t)
