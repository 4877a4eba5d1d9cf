-- ===== src/Spends/Tests.antt =====
-- The theorems on aggregation for a ledger of spends (id, tag).
use safe_network.Base.{ℕ, List, [], ◌∷◌, ◌++◌, ◌≡◌, refl, arith, length}
use safe_network.Base.SortedSet.{contains}
use safe_network.Samples.{ledger}
use safe_network.Spends.{is_valid, aggregate_spends}
use safe_network.Spends.Aggregate.{aggregate_detects, aggregate_stable}

abbrev seen : List (ℕ × ℕ)
seen = (7, 3) ∷ (8, 1) ∷ (7, 2) ∷ (7, 1) ∷ []

aggregate_detects_example : length (aggregate_spends ledger seen 7) ≡ 2
aggregate_detects_example =
    aggregate_detects ledger 7 seen (7, 3) (7, 1) (λ e. ground arith) (unfold is_valid in refl)
      (unfold is_valid in refl) (unfold contains in refl) (unfold contains in refl)

aggregate_stable_example :
    aggregate_spends ledger (aggregate_spends ledger seen 7 ++ (7, 0) ∷ []) 7
    ≡ aggregate_spends ledger (seen ++ (7, 0) ∷ []) 7
aggregate_stable_example = aggregate_stable ledger 7 seen ((7, 0) ∷ [])
