-- ===== src/Base/SortedMap.antt =====
-- `BTreeMap` of the standard library, as the list of its entries by strictly ascending key.
use Prim.Native.Nat.{Ordering}
use mathlib.Core.Path.{◌≡◌, refl}
use mathlib.Core.Bool.{Bool, ◌||◌}
use mathlib.Core.Option.{Option, none, some}
use mathlib.Core.List.{List, [], ◌∷◌}
use native.Mathlib.Omega.{arith}
use safe_network.Base.Order.{eqb→eq, Ord, eqb}
use safe_network.Base.Tests.{if◌then◌else◌, is_some}
use safe_network.Base.Lists.{All, any}

module _ {ℓ} {K V : Type ℓ} (o : Ord K) where
  unfoldable pub insert : K → V → List (K × V) → List (K × V)
  insert k v [] = (k, v) ∷ []
  insert k v ((j, w) ∷ m) =
      let rest = insert k v m in
      elim (o.cmp k j) [
        | Ordering.lt ↦ (k, v) ∷ (j, w) ∷ m
        | Ordering.eq ↦ (k, v) ∷ m
        | Ordering.gt ↦ (j, w) ∷ rest
      ]

  unfoldable pub lookup : K → List (K × V) → Option V
  lookup k [] = none
  lookup k ((j, w) ∷ m) = if eqb o k j then some w else lookup k m

  unfoldable pub remove : K → List (K × V) → List (K × V)
  remove k [] = []
  remove k ((j, w) ∷ m) = if eqb o k j then m else (j, w) ∷ remove k m

  -- `append` and `extend`: a later entry replaces an earlier one.
  unfoldable pub append : List (K × V) → List (K × V) → List (K × V)
  unfolding insert
  append m [] = m
  append m ((k, v) ∷ n) = append (insert k v m) n

  abbrev pub Above : K → K × V → Type 0
  Above k e = o.cmp k e.0 ≡ Ordering.lt

  abbrev pub IsSorted : List (K × V) → Type 0
  IsSorted [] = Unit
  IsSorted (e ∷ m) = All (Above e.0) m × IsSorted m

  pub Above-trans :
      (k j : K) (m : List (K × V)) → o.cmp k j ≡ Ordering.lt → All (Above j) m → All (Above k) m
  Above-trans k j [] h a = tt
  Above-trans k j (e ∷ m) h a = (o.cmp_trans k j e.0 h a.0, Above-trans k j m h a.1)

  Above-insert :
      (j k : K) (v : V) (m : List (K × V))
      → o.cmp j k ≡ Ordering.lt
      → All (Above j) m
      → All (Above j) (insert k v m)
  unfolding insert
  Above-insert j k v [] h a = (h, tt)
  Above-insert j k v ((i, w) ∷ m) h a = ground (arith, Above-insert j k v m h a.1)

  pub insert-IsSorted : (k : K) (v : V) (m : List (K × V)) → IsSorted m → IsSorted (insert k v m)
  unfolding insert
  insert-IsSorted k v [] s = (tt, tt)
  insert-IsSorted k v ((j, w) ∷ m) s = ground (
    arith,
    o.cmp_eq k j,
    o.cmp_gt k j,
    Above-trans k j m,
    Above-insert j k v m,
    insert-IsSorted k v m s.1,
  )

  Above-remove : (j k : K) (m : List (K × V)) → All (Above j) m → All (Above j) (remove k m)
  unfolding remove
  Above-remove j k [] a = tt
  Above-remove j k ((i, w) ∷ m) a = ground (arith, Above-remove j k m a.1)

  pub remove-IsSorted : (k : K) (m : List (K × V)) → IsSorted m → IsSorted (remove k m)
  unfolding remove
  remove-IsSorted k [] s = tt
  remove-IsSorted k ((j, w) ∷ m) s = ground (arith, Above-remove j k m s.0, remove-IsSorted k m s.1)

  pub append-IsSorted : (m n : List (K × V)) → IsSorted m → IsSorted (append m n)
  unfolding append
  append-IsSorted m [] s = s
  append-IsSorted m ((k, v) ∷ n) s = append-IsSorted (insert k v m) n (insert-IsSorted k v m s)

  pub lookup-insert :
      (j k : K) (v : V) (m : List (K × V))
      → lookup j (insert k v m) ≡ (if eqb o j k then some v else lookup j m)
  unfolding lookup insert
  lookup-insert j k v [] = refl
  lookup-insert j k v ((i, w) ∷ m) =
      ground (arith, o.cmp_eq k i, o.cmp_eq j k, lookup-insert j k v m)

  pub lookup-Above : (k : K) (m : List (K × V)) → All (Above k) m → lookup k m ≡ none
  unfolding lookup
  lookup-Above k [] a = refl
  lookup-Above k ((j, w) ∷ m) a = ground (arith, lookup-Above k m a.1)

  pub lookup-remove :
      (j k : K) (m : List (K × V))
      → IsSorted m
      → lookup j (remove k m) ≡ (if eqb o j k then none else lookup j m)
  unfolding lookup remove
  lookup-remove j k [] s = ground arith
  lookup-remove j k ((i, w) ∷ m) s = ground (
    arith,
    o.cmp_eq k i,
    o.cmp_eq j k,
    o.cmp_eq j i,
    o.cmp_refl i,
    o.cmp_refl k,
    lookup-Above i m s.0,
    lookup-remove j k m s.1,
  )

  pub All-insert {κ} :
      (P : K × V → Type κ) (k : K) (v : V) (m : List (K × V))
      → P (k, v)
      → All P m
      → All P (insert k v m)
  unfolding insert
  All-insert P k v [] p a = (p, tt)
  All-insert P k v ((j, w) ∷ m) p a = ground (arith, All-insert P k v m p a.1)

  pub All-lookup {κ} :
      (P : K × V → Type κ) (k : K) (v : V) (m : List (K × V))
      → All P m
      → lookup k m ≡ some v
      → P (k, v)
  unfolding lookup
  All-lookup P k v [] a h = cc
  All-lookup P k v ((j, w) ∷ m) a h = ground (arith, eqb→eq o k j, All-lookup P k v m a.1)

  pub All-remove {κ} :
      (P : K × V → Type κ) (k : K) (m : List (K × V)) → All P m → All P (remove k m)
  unfolding remove
  All-remove P k [] a = tt
  All-remove P k ((j, w) ∷ m) a = ground (arith, All-remove P k m a.1)

  -- Whether a key is held, and whether a list of entries has one for it.
  abbrev pub held : K → List (K × V) → Bool
  held k m = is_some (lookup k m)

  abbrev pub has_entry : K → List (K × V) → Bool
  has_entry k = any (λ e. eqb o k e.0)

  pub has_entry-held : (k : K) (m : List (K × V)) → has_entry k m ≡ held k m
  unfolding lookup
  has_entry-held k [] = refl
  has_entry-held k ((j, w) ∷ m) = ground (arith, has_entry-held k m)

  pub held-append : (k : K) (m n : List (K × V)) → held k (append m n) ≡ (held k m || has_entry k n)
  unfolding append
  held-append k m [] = ground arith
  held-append k m ((j, w) ∷ n) =
      ground (arith, held-append k (insert j w m) n, lookup-insert k j w m)

  pub All-append {κ} :
      (P : K × V → Type κ) (m n : List (K × V)) → All P m → All P n → All P (append m n)
  unfolding append
  All-append P m [] a b = a
  All-append P m ((j, w) ∷ n) a b = All-append P (insert j w m) n (All-insert P j w m b.0 a) b.1
