-- ===== src/Payments/Tests.antt =====
-- The index of a path of three steps.
use safe_network.Base.{ℕ, List, ◌<◌, ◌^◌, [], ◌∷◌, ◌≡◌, length, arith}
use safe_network.Payments.{leaf_index}
use safe_network.Payments.LeafIndex.{bits_value, leaf_index-bits_value}

abbrev path : List ℕ
path = 1 ∷ 0 ∷ 1 ∷ []

leaf_index-bits_value_example :
    (leaf_index path ≡ bits_value path) × (leaf_index path < 2 ^ length path)
leaf_index-bits_value_example =
    leaf_index-bits_value path (omega arith, (omega arith, (omega arith, tt))) (omega arith)
