-- ===== src/Base/SortBy.antt =====
-- `sort_by` of the standard library on a numeric key: a stable sort, and what its front has.
use mathlib.Core.List.{Permᴰ}
use native.Mathlib.Nat.{le_trans}
use safe_network.Base.{
  ◌∙◌, All-take, ap, ℕ, zero, suc, ◌-◌, ◌≤◌, ◌≡◌, refl, arith, List, [], ◌∷◌, ◌++◌, leb, leb→le,
  length, take, All, All-map, if◌then◌else◌, Bool-cases, inl, inr,
}

pub perm_refl {ℓ} : {A : Type ℓ} (xs : List A) → Permᴰ xs xs
perm_refl [] = Permᴰ.nil
perm_refl (x ∷ xs) = Permᴰ.cons refl (perm_refl xs)

module _ {ℓ} {A : Type ℓ} (key : A → ℕ) where
  unfoldable pub insert_by : A → List A → List A
  insert_by x [] = x ∷ []
  insert_by x (y ∷ ys) =
      let rest = insert_by x ys in if leb (key x) (key y) then x ∷ y ∷ ys else y ∷ rest

  unfoldable pub sort_by_key : List A → List A
  unfolding insert_by
  sort_by_key [] = []
  sort_by_key (x ∷ xs) = insert_by x (sort_by_key xs)

  abbrev pub IsAscending : List A → Type ℓ
  IsAscending [] = Unit
  IsAscending (x ∷ xs) = All (λ y. key x ≤ key y) xs × IsAscending xs

  -- Every item of the first list comes before every item of the second.
  abbrev pub Before : List A → List A → Type 0
  Before xs ys = All (λ x. All (λ y. key x ≤ key y) ys) xs

  insert_by-Perm : (x : A) (xs : List A) → Permᴰ (insert_by x xs) (x ∷ xs)
  unfolding insert_by
  insert_by-Perm x [] = Permᴰ.cons refl Permᴰ.nil
  insert_by-Perm x (y ∷ ys) = elim (Bool-cases (leb (key x) (key y))) [
    | inl below ↦ rw below (perm_refl (x ∷ y ∷ ys))
    | inr above ↦
        rw above (Permᴰ.trans (Permᴰ.cons refl (insert_by-Perm x ys)) (Permᴰ.swap refl refl))
  ]

  pub sort_by_key-Perm : (xs : List A) → Permᴰ (sort_by_key xs) xs
  unfolding sort_by_key
  sort_by_key-Perm [] = Permᴰ.nil
  sort_by_key-Perm (x ∷ xs) =
      Permᴰ.trans (insert_by-Perm x (sort_by_key xs)) (Permᴰ.cons refl (sort_by_key-Perm xs))

  All-insert_by {κ} :
      (P : A → Type κ) (x : A) (xs : List A) → P x → All P xs → All P (insert_by x xs)
  unfolding insert_by
  All-insert_by P x [] p a = (p, tt)
  All-insert_by P x (y ∷ ys) p a = ground (arith, All-insert_by P x ys p a.1)

  insert_by-IsAscending : (x : A) (xs : List A) → IsAscending xs → IsAscending (insert_by x xs)
  unfolding insert_by
  insert_by-IsAscending x [] s = (tt, tt)
  insert_by-IsAscending x (y ∷ ys) s = elim (Bool-cases (leb (key x) (key y))) [
    | inl below ↦ rw below (
      (
        leb→le (key x) (key y) below,
        All-map (λ z h. le_trans (leb→le (key x) (key y) below) h) ys s.0,
      ),
      s,
    )
    | inr above ↦
        rw above (
          All-insert_by (λ z. key y ≤ key z) x ys (ground arith) s.0,
          insert_by-IsAscending x ys s.1,
        )
  ]

  pub sort_by_key-IsAscending : (xs : List A) → IsAscending (sort_by_key xs)
  unfolding sort_by_key
  sort_by_key-IsAscending [] = tt
  sort_by_key-IsAscending (x ∷ xs) =
      insert_by-IsAscending x (sort_by_key xs) (sort_by_key-IsAscending xs)

abbrev pub drop {ℓ} : {A : Type ℓ} → ℕ → List A → List A
drop zero xs = xs
drop (suc n) [] = []
drop (suc n) (x ∷ xs) = drop n xs

module _ {ℓ} {A : Type ℓ} where
  pub take-drop : (n : ℕ) (xs : List A) → take n xs ++ drop n xs ≡ xs
  take-drop zero xs = refl
  take-drop (suc n) [] = refl
  take-drop (suc n) (x ∷ xs) = ap (λ l. x ∷ l) (take-drop n xs)

  pub length-drop : (n : ℕ) (xs : List A) → length (drop n xs) ≡ length xs - n
  length-drop zero xs = omega arith
  length-drop (suc n) [] = omega arith
  length-drop (suc n) (x ∷ xs) = omega (arith, length-drop n xs)

  pub All-drop {κ} : (P : A → Type κ) (n : ℕ) (xs : List A) → All P xs → All P (drop n xs)
  All-drop P zero xs a = a
  All-drop P (suc n) [] a = tt
  All-drop P (suc n) (x ∷ xs) a = All-drop P n xs a.1

  pub take-Before :
      (key : A → ℕ) (n : ℕ) (xs : List A) → IsAscending key xs → Before key (take n xs) (drop n xs)
  take-Before key zero xs s = tt
  take-Before key (suc n) [] s = tt
  take-Before key (suc n) (x ∷ xs) s =
      (All-drop (λ y. key x ≤ key y) n xs s.0, take-Before key n xs s.1)

  pub take-IsAscending :
      (key : A → ℕ) (n : ℕ) (xs : List A) → IsAscending key xs → IsAscending key (take n xs)
  take-IsAscending key zero xs s = tt
  take-IsAscending key (suc n) [] s = tt
  take-IsAscending key (suc n) (x ∷ xs) s =
      (All-take (λ y. key x ≤ key y) n xs s.0, take-IsAscending key n xs s.1)

  pub length-Perm : {xs ys : List A} → Permᴰ xs ys → length xs ≡ length ys
  length-Perm Permᴰ.nil = refl
  length-Perm (Permᴰ.cons e q) = ap suc (length-Perm q)
  length-Perm (Permᴰ.swap e f) = refl
  length-Perm (Permᴰ.trans q r) = length-Perm q ∙ length-Perm r
