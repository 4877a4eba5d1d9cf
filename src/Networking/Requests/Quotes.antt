-- ===== src/Networking/Requests/Quotes.antt =====
-- The store cost that is taken from the quotes, and the closest peers.
use mathlib.Core.List.{Permᴰ}
use safe_network.Base.{
  ap, ℕ, zero, suc, ◌-◌, ◌<◌, ◌≤◌, ◌≡◌, refl, sym, ap, subst, arith, List, [], ◌∷◌, ◌++◌, Option,
  none, some, Bool, true, false, length, All, ltb, if◌then◌else◌, inl, inr, ◌⊎◌, Bool-cases, ltb→lt,
  min, ◌==◌,
}
use safe_network.Base.Outcome.{ok, err}
use safe_network.Base.SortBy.{
  sort_by_key, sort_by_key-Perm, sort_by_key-IsAscending, IsAscending, length-Perm,
}
use safe_network.Networking.RecordStore.{Kademlia, last}
use safe_network.Networking.Requests.{
  not_enough_cost_quotes, quote_or_missing, prefer, get_elem?, get_fee_from_store_cost_quotes,
}

-- In ascending order, `below` come before the cost and `above` after it.
pub record IsRanked (costs : List ℕ) (rank cost : ℕ) : Type 0 where
  pub below : List ℕ
  pub above : List ℕ
  pub permutes : Permᴰ (below ++ cost ∷ above) costs
  pub below_le : All (λ c. c ≤ cost) below
  pub above_ge : All (λ c. cost ≤ c) above
  pub rank_is : length below ≡ rank

All-middle :
    (P : ℕ → Type 0) (below : List ℕ) (cost : ℕ) (above : List ℕ)
    → All P (below ++ cost ∷ above)
    → P cost
All-middle P [] cost above h = h.0
All-middle P (x ∷ below) cost above h = All-middle P below cost above h.1

split_at :
    (i : ℕ) (sorted : List ℕ)
    → i < length sorted
    → IsAscending (λ c. c) sorted
    → (cost : ℕ) × (below : List ℕ) × (above : List ℕ) × (get_elem? sorted i ≡ some cost)
      × (below ++ cost ∷ above ≡ sorted)
      × All (λ c. c ≤ cost) below
      × All (λ c. cost ≤ c) above
      × (length below ≡ i)
unfolding get_elem?
split_at i [] h s = absurd (omega arith)
split_at zero (x ∷ xs) h s = (x, [], xs, refl, refl, tt, s.0, refl)
split_at (suc i) (x ∷ xs) h s =
    let (cost, below, above, got, whole, le, ge, size) = split_at i xs (omega (arith, h)) s.1 in
    (
      cost,
      x ∷ below,
      above,
      got,
      ap (λ l. x ∷ l) whole,
      (
        All-middle (λ c. x ≤ c) below cost above (subst (λ l. All (λ c. x ≤ c) l) (sym whole) s.0),
        le,
      ),
      ge,
      ap suc size,
    )

get_elem-none : (i : ℕ) (xs : List ℕ) → length xs ≤ i → get_elem? xs i ≡ none
unfolding get_elem?
get_elem-none i [] h = refl
get_elem-none zero (x ∷ xs) h = absurd (omega arith)
get_elem-none (suc i) (x ∷ xs) h = get_elem-none i xs (omega (arith, h))

last-get_elem : (x : ℕ) (xs : List ℕ) → last (x ∷ xs) ≡ get_elem? (x ∷ xs) (length xs)
unfolding last get_elem?
last-get_elem x [] = refl
last-get_elem x (y ∷ ys) = last-get_elem y ys

-- The cost at an index of the sorted costs has that rank.
ranked :
    (costs : List ℕ) (i : ℕ)
    → i < length costs
    → (cost : ℕ) × (get_elem? (sort_by_key (λ c. c) costs) i ≡ some cost) × IsRanked costs i cost
ranked costs i h =
    let perm = sort_by_key-Perm (λ c. c) costs in
    let (cost, below, above, got, whole, le, ge, size) =
      split_at i (sort_by_key (λ c. c) costs) (omega (arith, length-Perm perm, h))
        (sort_by_key-IsAscending (λ c. c) costs) in
    (
      cost,
      got,
      record {
        below = below;
        above = above;
        permutes = subst (λ l. Permᴰ l costs) (sym whole) perm;
        below_le = le;
        above_ge = ge;
        rank_is = size;
      },
    )

last_ranked :
    (sorted : List ℕ) → 0 < length sorted → last sorted ≡ get_elem? sorted (length sorted - 1)
last_ranked [] h = absurd (omega arith)
last_ranked (x ∷ xs) h =
    let e : suc (length xs) - 1 ≡ length xs = omega arith in rw e (last-get_elem x xs)

last-none : (xs : List ℕ) → length xs ≡ 0 → last xs ≡ none
unfolding last
last-none [] h = refl
last-none (x ∷ xs) h = absurd (omega (arith, h))

-- How many quotes are needed.
abbrev pub required : Bool → ℕ
required any_cost_will_do = if any_cost_will_do then 1 else 5

enough :
    (costs : List ℕ) (any_cost_will_do : Bool)
    → 5 ≤ length costs
    → required any_cost_will_do ≤ length costs
enough costs true h = omega (arith, h)
enough costs false h = h

missing : (costs : List ℕ) → length costs < 5 → get_elem? (sort_by_key (λ c. c) costs) 4 ≡ none
missing costs few =
    get_elem-none 4 (sort_by_key (λ c. c) costs)
      (omega (arith, length-Perm (sort_by_key-Perm (λ c. c) costs), few))

module _ {k : Kademlia} where
  fee_some :
      (any_cost_will_do : Bool) (cost : ℕ) (other : Option ℕ)
      → (if any_cost_will_do
          then prefer {k = k} (some cost) other
          else quote_or_missing (some cost))
        ≡ ok cost
  unfolding prefer
  fee_some true cost other = refl
  fee_some false cost other = refl

  fee_last :
      (sorted : List ℕ) (n cost : ℕ)
      → get_elem? sorted 4 ≡ none
      → length sorted ≡ n
      → 0 < n
      → get_elem? sorted (n - 1) ≡ some cost
      → prefer {k = k} (get_elem? sorted 4) (last sorted) ≡ ok cost
  unfolding prefer
  fee_last sorted n cost few size one got =
      rw (few, last_ranked sorted (omega (arith, size, one)), size, got) refl

  fee_of_few :
      (costs : List ℕ) (any_cost_will_do : Bool)
      → length costs < 5
      → ((required any_cost_will_do ≤ length costs)
          × ((cost : ℕ) × (get_fee_from_store_cost_quotes {k = k} costs any_cost_will_do ≡ ok cost)
              × IsRanked costs (min 4 (length costs - 1)) cost))
        ⊎ ((length costs < required any_cost_will_do)
            × (get_fee_from_store_cost_quotes {k = k} costs any_cost_will_do
                ≡ err not_enough_cost_quotes))
  unfolding get_fee_from_store_cost_quotes prefer
  fee_of_few costs false few = inr (few, rw (missing costs few) refl)
  fee_of_few costs true few =
      let sorted = sort_by_key (λ c. c) costs in
      let same = length-Perm (sort_by_key-Perm (λ c. c) costs) in
      elim (Bool-cases (length costs == 0)) [
        | inl empty ↦
            let zero_sorted : length sorted ≡ 0 = ground (arith, same, empty) in
            inr (ground (arith, empty), rw (missing costs few, last-none sorted zero_sorted) refl)
        | inr one ↦
            let positive : 0 < length costs = ground (arith, one) in
            let (cost, got, rank) = ranked costs (length costs - 1) (omega (arith, positive)) in
            let top : length costs - 1 ≡ min 4 (length costs - 1) = omega (arith, few) in
            inl (
              positive,
              (
                cost,
                fee_last sorted (length costs) cost (missing costs few) same positive got,
                subst (λ r. IsRanked costs r cost) top rank,
              ),
            )
      ]

  -- With enough quotes the fee is the fifth lowest of them, or the highest if there are fewer
  -- than five; with too few quotes it is an error.
  pub get_fee_lem :
      (costs : List ℕ) (any_cost_will_do : Bool)
      → ((required any_cost_will_do ≤ length costs)
          × ((cost : ℕ) × (get_fee_from_store_cost_quotes {k = k} costs any_cost_will_do ≡ ok cost)
              × IsRanked costs (min 4 (length costs - 1)) cost))
        ⊎ ((length costs < required any_cost_will_do)
            × (get_fee_from_store_cost_quotes {k = k} costs any_cost_will_do
                ≡ err not_enough_cost_quotes))
  unfolding get_fee_from_store_cost_quotes prefer
  get_fee_lem costs any_cost_will_do = elim (Bool-cases (ltb (length costs) 5)) [
    | inl few ↦ fee_of_few costs any_cost_will_do (ltb→lt (length costs) 5 few)
    | inr many ↦
        let (cost, got, rank) = ranked costs 4 (ground (arith, many)) in
        let top : 4 ≡ min 4 (length costs - 1) = ground (arith, many) in
        inl (
          enough costs any_cost_will_do (ground (arith, many)),
          (
            cost,
            rw got (fee_some any_cost_will_do cost (last (sort_by_key (λ c. c) costs))),
            subst (λ r. IsRanked costs r cost) top rank,
          ),
        )
  ]
