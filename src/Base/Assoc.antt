-- ===== src/Base/Assoc.antt =====
-- `HashMap` as an association list with each key at most once.
use mathlib.Core.Path.{◌≡◌, refl, sym, ap, subst, ◌∙◌}
use mathlib.Core.List.{List, [], ◌∷◌, Permᴰ}
use mathlib.Core.Logic.{◌≢◌, ite}
use mathlib.Core.Option.{Option, none, some}
use Prim.Native.Nat.{◌≤◌, suc}
use native.Mathlib.Omega.{arith}
use safe_network.Base.Lists.{All, length}

module _ {ℓ} {K V : Type ℓ} where
  -- No key of the list is `k`.
  abbrev pub IsFresh : K → List (K × V) → Type ℓ
  IsFresh k [] = Unit
  IsFresh k ((j, v) ∷ m) = (k ≢ j) × IsFresh k m

  abbrev pub IsDistinct : List (K × V) → Type ℓ
  IsDistinct [] = Unit
  IsDistinct ((k, v) ∷ m) = IsFresh k m × IsDistinct m

module _ {ℓ} {K V : Type ℓ} where
  IsFresh-perm : (k : K) {l m : List (K × V)} → Permᴰ l m → IsFresh k l → IsFresh k m
  IsFresh-perm k Permᴰ.nil h = tt
  IsFresh-perm k (Permᴰ.cons {b = b} e p) h =
      (λ q. h.0 (q ∙ sym (ap (λ x. x.0) e)), IsFresh-perm k p h.1)
  IsFresh-perm k (Permᴰ.swap e f) h =
      (λ q. h.1.0 (q ∙ sym (ap (λ x. x.0) f)), (λ q. h.0 (q ∙ sym (ap (λ x. x.0) e)), h.1.1))
  IsFresh-perm k (Permᴰ.trans p q) h = IsFresh-perm k q (IsFresh-perm k p h)

  pub IsDistinct-perm : {l m : List (K × V)} → Permᴰ l m → IsDistinct l → IsDistinct m
  IsDistinct-perm Permᴰ.nil h = tt
  IsDistinct-perm (Permᴰ.cons {a = a} {l₂ = m} e p) h =
      (subst (λ (b : K × V). IsFresh b.0 m) e (IsFresh-perm a.0 p h.0), IsDistinct-perm p h.1)
  IsDistinct-perm (Permᴰ.swap {l = l} e f) h = (
    (
      λ q. h.0.0 (ap (λ x. x.0) e ∙ sym q ∙ sym (ap (λ x. x.0) f)),
      subst (λ (b : K × V). IsFresh b.0 l) f h.1.0,
    ),
    (subst (λ (b : K × V). IsFresh b.0 l) e h.0.1, h.1.1),
  )
  IsDistinct-perm (Permᴰ.trans p q) h = IsDistinct-perm q (IsDistinct-perm p h)

pub All-perm {ℓ κ} : {A : Type ℓ} (P : A → Type κ) {l m : List A} → Permᴰ l m → All P l → All P m
All-perm P Permᴰ.nil h = tt
All-perm P (Permᴰ.cons e p) h = (subst P e h.0, All-perm P p h.1)
All-perm P (Permᴰ.swap e f) h = (subst P f h.1.0, (subst P e h.0, h.1.1))
All-perm P (Permᴰ.trans p q) h = All-perm P q (All-perm P p h)

module _ {ℓ} {K V : Type ℓ} (dec : Discrete K) where
  unfoldable pub lookup : K → List (K × V) → Option V
  lookup k [] = none
  lookup k ((j, v) ∷ m) = ite (dec k j) (some v) (lookup k m)

  -- `insert`: replaces the value of a key, or adds the key.
  unfoldable pub insert : K → V → List (K × V) → List (K × V)
  insert k v [] = (k, v) ∷ []
  insert k v ((j, w) ∷ m) = ite (dec k j) ((k, v) ∷ m) ((j, w) ∷ insert k v m)

  unfoldable pub remove : K → List (K × V) → List (K × V)
  remove k [] = []
  remove k ((j, v) ∷ m) = ite (dec k j) (remove k m) ((j, v) ∷ remove k m)

  -- `entry(k).or_insert(v)` and then a change of the value
  unfoldable pub update_or_insert : K → V → (V → V) → List (K × V) → List (K × V)
  update_or_insert k v f [] = (k, f v) ∷ []
  update_or_insert k v f ((j, w) ∷ m) =
      ite (dec k j) ((j, f w) ∷ m) ((j, w) ∷ update_or_insert k v f m)

  pub lookup-insert_self : (k : K) (v : V) (m : List (K × V)) → lookup k (insert k v m) ≡ some v
  unfolding lookup insert
  lookup-insert_self k v [] = ground arith
  lookup-insert_self k v ((j, w) ∷ m) = ground (arith, lookup-insert_self k v m)

  pub lookup-insert_ne :
      (k j : K) (v : V) (m : List (K × V)) → k ≢ j → lookup k (insert j v m) ≡ lookup k m
  unfolding lookup insert
  lookup-insert_ne k j v [] h = ground arith
  lookup-insert_ne k j v ((i, w) ∷ m) h = ground (arith, lookup-insert_ne k j v m)

  pub lookup-remove_self : (k : K) (m : List (K × V)) → lookup k (remove k m) ≡ none
  unfolding lookup remove
  lookup-remove_self k [] = refl
  lookup-remove_self k ((j, v) ∷ m) = ground (arith, lookup-remove_self k m)

  pub lookup-remove_ne : (k j : K) (m : List (K × V)) → k ≢ j → lookup k (remove j m) ≡ lookup k m
  unfolding lookup remove
  lookup-remove_ne k j [] h = refl
  lookup-remove_ne k j ((i, w) ∷ m) h = ground (arith, lookup-remove_ne k j m)

  pub length-insert_fresh :
      (k : K) (v : V) (m : List (K × V))
      → lookup k m ≡ none
      → length (insert k v m) ≡ suc (length m)
  unfolding lookup insert
  length-insert_fresh k v [] h = refl
  length-insert_fresh k v ((j, w) ∷ m) h = ground (arith, length-insert_fresh k v m)

  pub length-insert-le : (k : K) (v : V) (m : List (K × V)) → length m ≤ length (insert k v m)
  unfolding insert
  length-insert-le k v [] = omega arith
  length-insert-le k v ((j, w) ∷ m) = ground (arith, length-insert-le k v m)

  pub IsFresh-remove : (k j : K) (m : List (K × V)) → IsFresh k m → IsFresh k (remove j m)
  unfolding remove
  IsFresh-remove k j [] h = tt
  IsFresh-remove k j ((i, w) ∷ m) h = ground (arith, IsFresh-remove k j m)

  pub IsDistinct-remove : (k : K) (m : List (K × V)) → IsDistinct m → IsDistinct (remove k m)
  unfolding remove
  IsDistinct-remove k [] h = tt
  IsDistinct-remove k ((j, w) ∷ m) h = ground (arith, IsFresh-remove j k m, IsDistinct-remove k m)

  pub IsFresh-update_or_insert :
      (k j : K) (v : V) (f : V → V) (m : List (K × V))
      → k ≢ j
      → IsFresh k m
      → IsFresh k (update_or_insert j v f m)
  unfolding update_or_insert
  IsFresh-update_or_insert k j v f [] e h = (e, tt)
  IsFresh-update_or_insert k j v f ((i, w) ∷ m) e h =
      ground (arith, IsFresh-update_or_insert k j v f m)

  pub IsDistinct-update_or_insert :
      (k : K) (v : V) (f : V → V) (m : List (K × V))
      → IsDistinct m
      → IsDistinct (update_or_insert k v f m)
  unfolding update_or_insert
  IsDistinct-update_or_insert k v f [] h = (tt, tt)
  IsDistinct-update_or_insert k v f ((j, w) ∷ m) h =
      ground (arith, IsFresh-update_or_insert j k v f m, IsDistinct-update_or_insert k v f m)

  module _ {μ} (P : K × V → Type μ) where
    pub All-remove : (k : K) (m : List (K × V)) → All P m → All P (remove k m)
    unfolding remove
    All-remove k [] h = tt
    All-remove k ((j, w) ∷ m) h = ground (arith, All-remove k m h.1)

    pub All-update_or_insert :
        (k : K) (v : V) (f : V → V) (m : List (K × V))
        → P (k, f v)
        → ((j : K) (w : V) → P (j, w) → P (j, f w))
        → All P m
        → All P (update_or_insert k v f m)
    unfolding update_or_insert
    All-update_or_insert k v f [] h g a = (h, tt)
    All-update_or_insert k v f ((j, w) ∷ m) h g a =
        ground (arith, g j w, All-update_or_insert k v f m h g)

    pub All-insert : (k : K) (v : V) (m : List (K × V)) → P (k, v) → All P m → All P (insert k v m)
    unfolding insert
    All-insert k v [] h a = (h, tt)
    All-insert k v ((j, w) ∷ m) h a = ground (arith, All-insert k v m h a.1)

    pub All-lookup : (k : K) (v : V) (m : List (K × V)) → All P m → lookup k m ≡ some v → P (k, v)
    unfolding lookup
    All-lookup k v [] a h = cc
    All-lookup k v ((j, w) ∷ m) a h = ground (arith, All-lookup k v m a.1)
