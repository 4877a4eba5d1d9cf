-- ===== src/Node/Replication/Tests.antt =====
-- The theorem on replication, where peers and records are numbers: each is as far from another as their
-- sum is large.
use safe_network.Base.{ℕ, ◌+◌, ◌≤◌, ◌≡◌, refl, List, [], ◌∷◌, false, length, filter, All, arith}
use safe_network.Base.Order.{nat_ord}
use safe_network.Base.SortBy.{sort_by_key}
use safe_network.Base.SortedMap
use safe_network.Node.Replication.{try_trigger_replication}
use safe_network.Node.Replication.Sent.{
  keys_sent_to, is_for, considered, try_trigger_replication_lem,
}

abbrev ten_peers : List ℕ
ten_peers = 1 ∷ 2 ∷ 3 ∷ 4 ∷ 5 ∷ 6 ∷ 7 ∷ 8 ∷ 9 ∷ 10 ∷ []

abbrev far : ℕ → ℕ → ℕ
far key peer = key + peer

abbrev to_new_peer : List (ℕ × List ℕ)
to_new_peer = (3, 50 ∷ 60 ∷ []) ∷ []

try_trigger_replication_lem_example :
    (keys_sent_to nat_ord 3 to_new_peer
      ≡ filter (is_for nat_ord far 3 false (considered nat_ord 3 false ten_peers) 3) (50 ∷ 60 ∷ []))
    × All (λ (m : ℕ × List ℕ). length m.1 ≤ 500) to_new_peer
try_trigger_replication_lem_example =
    try_trigger_replication_lem nat_ord far 10 ten_peers (50 ∷ 60 ∷ []) 3 false to_new_peer 3
      (omega arith) (unfold try_trigger_replication sort_by_key SortedMap.insert in refl)
