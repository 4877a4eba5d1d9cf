-- ===== src/Networking/RecordStore/Capacity.antt =====
-- Lemmas on the sorting of records by distance, and on the set of records, of record_store.rs.
use safe_network.Base.{
  ap, suc, ◌+◌, ◌≤◌, ◌<◌, ◌||◌, leb→le, List, [], ◌∷◌, none, some, true, not, ◌≡◌, refl, arith, leb,
  length, All, All-map, filter, Ordering, Option-cases, inl, inr, Bool-cases,
}
use safe_network.Base.Order.{lt→neqb_symm, Ord, eqb, eqb_refl, eqb→eq}
use safe_network.Base.SortedSet
use native.Mathlib.Nat.{le_trans}
use safe_network.Networking.RecordStore.{
  Kademlia, RecordStore, distance_to, sort_insert, sort_by_distance, last,
}

module _ {k : Kademlia} (s : RecordStore k) where
  open k use {Key, key_ord as o}

  -- Distances ascend.
  abbrev Ascends : List Key → Type 0
  Ascends [] = Unit
  Ascends (x ∷ xs) = All (λ y. distance_to s x ≤ distance_to s y) xs × Ascends xs

  sort_insert-above :
      (z x : Key) (ys : List Key)
      → distance_to s z ≤ distance_to s x
      → All (λ y. distance_to s z ≤ distance_to s y) ys
      → All (λ y. distance_to s z ≤ distance_to s y) (sort_insert s x ys)
  unfolding sort_insert
  sort_insert-above z x [] h a = (h, tt)
  sort_insert-above z x (y ∷ ys) h a = ground (arith, sort_insert-above z x ys h a.1)

  sort_insert-Ascends : (x : Key) (ys : List Key) → Ascends ys → Ascends (sort_insert s x ys)
  unfolding sort_insert
  sort_insert-Ascends x [] a = (tt, tt)
  sort_insert-Ascends x (y ∷ ys) a = elim (Bool-cases (leb (distance_to s x) (distance_to s y))) [
    | inl e ↦
        rw (e, sort_insert) ((leb→le _ _ e, All-map (λ z h. le_trans (leb→le _ _ e) h) ys a.0), a)
    | inr e ↦
        rw (e, sort_insert)
          (sort_insert-above y x ys (ground arith) a.0, sort_insert-Ascends x ys a.1)
  ]

  sort-Ascends : (xs : List Key) → Ascends (sort_by_distance s xs)
  unfolding sort_by_distance
  sort-Ascends [] = tt
  sort-Ascends (x ∷ xs) = sort_insert-Ascends x (sort_by_distance s xs) (sort-Ascends xs)

  contains-sort_insert :
      (z x : Key) (ys : List Key)
      → SortedSet.contains o z (sort_insert s x ys) ≡ (eqb o z x || SortedSet.contains o z ys)
  unfolding sort_insert SortedSet.contains
  contains-sort_insert z x [] = refl
  contains-sort_insert z x (y ∷ ys) = ground (arith, contains-sort_insert z x ys)

  contains-sort :
      (z : Key) (xs : List Key)
      → SortedSet.contains o z (sort_by_distance s xs) ≡ SortedSet.contains o z xs
  unfolding sort_by_distance SortedSet.contains
  contains-sort z [] = refl
  contains-sort z (x ∷ xs) =
      ground (arith, contains-sort z xs, contains-sort_insert z x (sort_by_distance s xs))

  -- The last of an ascending list is as far as any.
  last-Ascends :
      (xs : List Key) (f : Key)
      → Ascends xs
      → last xs ≡ some f
      → (SortedSet.contains o f xs ≡ true) × All (λ y. distance_to s y ≤ distance_to s f) xs
  unfolding last SortedSet.contains
  last-Ascends [] f a e = cc
  last-Ascends (x ∷ []) f a e = ground (arith, eqb_refl o x)
  last-Ascends (x ∷ y ∷ ys) f a e =
      let (m, rest) = last-Ascends (y ∷ ys) f a.1 e in
      (ground (arith, m), (le_trans a.0.0 rest.0, rest))

module _ {k : Kademlia} (s : RecordStore k) where
  open k use {Key, key_ord as o}

  last-some : {A : Type 0} (x : A) (xs : List A) → (f : A) × (last (x ∷ xs) ≡ some f)
  unfolding last
  last-some x [] = (x, refl)
  last-some x (y ∷ ys) = last-some y ys

  -- The record that pruning looks at: one of those held, and as far as any.
  pub furthest_lem :
      (f : Key)
      → last (sort_by_distance s s.records) ≡ some f
      → (SortedSet.contains o f s.records ≡ true)
        × ((y : Key) → SortedSet.contains o y s.records ≡ true → distance_to s y ≤ distance_to s f)
  furthest_lem f e =
      let (m, far) = last-Ascends s (sort_by_distance s s.records) f (sort-Ascends s s.records) e in
      (
        ground (arith, contains-sort s f s.records),
        λ y h.
            SortedSet.All-contains o (λ y. distance_to s y ≤ distance_to s f) y
              (sort_by_distance s s.records) (ground (arith, contains-sort s y s.records)) far,
      )

pub length-insert-le {ℓ} :
    {A : Type ℓ} (o : Ord A) (x : A) (xs : List A)
    → length (SortedSet.insert o x xs) ≤ length xs + 1
unfolding SortedSet.insert
length-insert-le o x [] = omega arith
length-insert-le o x (y ∷ ys) = ground (arith, length-insert-le o x ys)

pub insert_held {ℓ} :
    {A : Type ℓ} (o : Ord A) (x : A) (xs : List A)
    → SortedSet.IsSorted o xs
    → SortedSet.contains o x xs ≡ true
    → SortedSet.insert o x xs ≡ xs
insert_held o x xs h m =
    SortedSet.set_ext o (SortedSet.insert o x xs) xs (SortedSet.insert-IsSorted o x xs h) h
      (λ z. ground (arith, SortedSet.contains-insert o z x xs, eqb→eq o z x))

without_absent {ℓ} :
    {A : Type ℓ} (o : Ord A) (x : A) (ys : List A)
    → All (λ y. o.cmp x y ≡ Ordering.lt) ys
    → filter (λ y. not (eqb o y x)) ys ≡ ys
without_absent o x [] h = refl
without_absent o x (y ∷ ys) h = rw (lt→neqb_symm o y x h.0) (ap (◌∷◌ y) (without_absent o x ys h.1))

-- Taking out an element of a set leaves one less.
pub length-without {ℓ} :
    {A : Type ℓ} (o : Ord A) (x : A) (xs : List A)
    → SortedSet.IsSorted o xs
    → SortedSet.contains o x xs ≡ true
    → suc (length (filter (λ y. not (eqb o y x)) xs)) ≡ length xs
unfolding SortedSet.contains
length-without o x [] h m = cc
length-without o x (y ∷ ys) h m = elim (Bool-cases (eqb o y x)) [
  | inl e ↦ rw e (ap (λ l. suc (length l)) (without_absent o x ys (rw (eqb→eq o y x e) at h.0)))
  | inr e ↦ rw e (ap suc (length-without o x ys h.1 (ground (arith, eqb→eq o x y, eqb_refl o x))))
]

last-none {ℓ} : {A : Type ℓ} (xs : List A) → last xs ≡ none → xs ≡ []
unfolding last
last-none [] e = refl
last-none (x ∷ []) e = cc
last-none (x ∷ y ∷ ys) e = cc (last-none (y ∷ ys) e)

module _ {k : Kademlia} (s : RecordStore k) where
  open k use {Key, key_ord as o}

  pub sort_has_last :
      (xs : List Key) → 0 < length xs → (f : Key) × (last (sort_by_distance s xs) ≡ some f)
  sort_has_last [] h = absurd (omega arith)
  sort_has_last (x ∷ xs) h = elim (Option-cases (last (sort_by_distance s (x ∷ xs)))) [
    | inr (f, e) ↦ (f, e)
    | inl e ↦
        let empty = last-none (sort_by_distance s (x ∷ xs)) e in
        let held = contains-sort s x (x ∷ xs) in
        absurd (
          unfold SortedSet.contains in
          ground (arith, ap (SortedSet.contains o x) empty, eqb_refl o x, held))
  ]
