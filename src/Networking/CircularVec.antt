-- ===== src/Networking/CircularVec.antt =====
-- sn_networking/src/circular_vec.rs. `VecDeque::with_capacity` may reserve more than it is asked for:
-- the capacity that it gives is a field.
use mathlib.Core.List.{append-nil, append_assoc}
use safe_network.Base.{
  ltb, ℕ, zero, suc, ◌-◌, ◌≤◌, ◌<◌, List, [], ◌∷◌, ◌++◌, Bool, true, false, ◌≡◌, refl, ap, ◌∙◌, sym,
  arith, length, any, test, ◌==◌, if◌then◌else◌, length-append, Bool-cases, inl, inr,
}
use safe_network.Base.Outcome.{Outcome, ok, err, ◌>>=◌}

pub data Error : Type 0 where
  circular_vec_pop_front_error : Error

pub record CircularVec (A : Type 0) : Type 0 where
  pub inner : List A
  pub capacity : ℕ

module _ {A : Type 0} where
  abbrev pub new : ℕ → CircularVec A
  new capacity = record { inner = []; capacity = capacity }

  -- `pop_front().ok_or(..)?`
  unfoldable pub pop_front : List A → Outcome Error (List A)
  pop_front [] = err circular_vec_pop_front_error
  pop_front (x ∷ xs) = ok xs

  unfoldable pub push : CircularVec A → A → Outcome Error (CircularVec A)
  unfolding pop_front
  push v item =
      if length v.inner == v.capacity
      then (do rest ← pop_front v.inner; ok (record v { inner = rest ++ item ∷ [] }))
      else ok (record v { inner = v.inner ++ item ∷ [] })

  unfoldable pub contains : Discrete A → CircularVec A → A → Bool
  contains dec v item = any (λ x. test (dec x item)) v.inner

  unfoldable pub push_all : CircularVec A → List A → Outcome Error (CircularVec A)
  unfolding push
  push_all v [] = ok v
  push_all v (x ∷ xs) = do v' ← push v x; push_all v' xs

  abbrev pub drop : ℕ → List A → List A
  drop zero xs = xs
  drop (suc n) [] = []
  drop (suc n) (x ∷ xs) = drop n xs

  -- The last `n` items.
  abbrev pub last_of : ℕ → List A → List A
  last_of n xs = drop (length xs - n) xs

  drop-append_one :
      (n : ℕ) (xs : List A) (x : A) → n ≤ length xs → drop n (xs ++ x ∷ []) ≡ drop n xs ++ x ∷ []
  drop-append_one zero xs x h = refl
  drop-append_one (suc n) [] x h = absurd (omega arith)
  drop-append_one (suc n) (y ∷ ys) x h = drop-append_one n ys x (omega arith)

  length-drop : (n : ℕ) (xs : List A) → length (drop n xs) ≡ length xs - n
  length-drop zero xs = omega arith
  length-drop (suc n) [] = omega arith
  length-drop (suc n) (x ∷ xs) = omega (arith, length-drop n xs)

  drop_one_more :
      (n : ℕ) (xs : List A) → n < length xs → pop_front (drop n xs) ≡ ok (drop (suc n) xs)
  unfolding pop_front
  drop_one_more n [] h = absurd (omega arith)
  drop_one_more zero (x ∷ xs) h = refl
  drop_one_more (suc n) (x ∷ xs) h = drop_one_more n xs (omega arith)

  abbrev pub Shows : ℕ → List A → CircularVec A → Type 0
  Shows size history v = (v.capacity ≡ size) × (v.inner ≡ last_of size history)

  push-Shows :
      (size : ℕ) (history : List A) (v : CircularVec A) (x : A)
      → 0 < size
      → Shows size history v
      → (v' : CircularVec A) × (push v x ≡ ok v') × Shows size (history ++ x ∷ []) v'
  unfolding push
  push-Shows size history v x pos s = elim (Bool-cases (ltb (length history) size)) [
    | inl few ↦ (
      record v { inner = v.inner ++ x ∷ [] },
      ground (arith, s.0, ap length s.1, length-drop (length history - size) history),
      (s.0, room few),
    )
    | inr many ↦ (
      record v { inner = drop (suc (length history - size)) history ++ x ∷ [] },
      full many,
      (s.0, kept many),
    )
  ]
    where
      room : ltb (length history) size ≡ true → v.inner ++ x ∷ [] ≡ last_of size (history ++ x ∷ [])
      room few =
          let e : length (history ++ x ∷ []) - size ≡ 0 =
            ground (arith, length-append history (x ∷ [])) in
          let f : length history - size ≡ 0 = ground arith in
          rw e (ap (λ l. l ++ x ∷ []) (s.1 ∙ ap (λ n. drop n history) f))

      kept :
          ltb (length history) size ≡ false
          → drop (suc (length history - size)) history ++ x ∷ [] ≡ last_of size (history ++ x ∷ [])
      kept many =
          let e : length (history ++ x ∷ []) - size ≡ suc (length history - size) =
            ground (arith, length-append history (x ∷ [])) in
          rw e (sym (drop-append_one (suc (length history - size)) history x (ground arith)))

      full :
          ltb (length history) size ≡ false
          → push v x
            ≡ ok (record v { inner = drop (suc (length history - size)) history ++ x ∷ [] })
      full many = ground (
        arith,
        s.0,
        ap length s.1,
        ap pop_front s.1,
        length-drop (length history - size) history,
        drop_one_more (length history - size) history,
      )

  -- For a capacity above zero, pushing never fails on a buffer that shows the end of a history,
  -- and afterwards it holds the last items of the longer history, as many as its capacity.
  pub push_all-last_of :
      (size : ℕ) (history xs : List A) (v : CircularVec A)
      → 0 < size
      → Shows size history v
      → (v' : CircularVec A) × (push_all v xs ≡ ok v') × Shows size (history ++ xs) v'
  unfolding push_all
  push_all-last_of size history [] v pos s = (v, refl, rw (append-nil history) s)
  push_all-last_of size history (x ∷ xs) v pos s =
      let (v₁, e, s₁) = push-Shows size history v x pos s in
      let (v', f, s') = push_all-last_of size (history ++ x ∷ []) xs v₁ pos s₁ in
      (v', rw e f, rw (append_assoc history (x ∷ []) xs) at s')
