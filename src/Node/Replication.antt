-- ===== src/Node/Replication.antt =====
-- sn_node/src/replication.rs: which records are replicated to which peers when a peer joins or leaves,
-- and the messages in which their keys are sent.
mod Tests
pub mod Sent
use safe_network.Base.{
  ℕ, zero, suc, ◌+◌, List, [], ◌∷◌, ◌++◌, Option, none, some, Bool, true, false, not, ltb, length,
  take, filter, if◌then◌else◌, map, any,
}
use safe_network.Base.Order.{Ord, eqb}
use safe_network.Base.Outcome.{Outcome, ok, err, ◌>>=◌}
use safe_network.Base.SortBy.{drop}
use safe_network.Base.SortedMap.{insert, lookup}
use safe_network.Networking.RecordStore.{last}
use safe_network.Networking.Peers.{PeersError, sort_peers_by_key}
use safe_network.Networking.Quorum.{close_group_size}
use safe_network.Networking.Driver.Peering.{concat}

-- MAX_REPLICATION_KEYS_PER_REQUEST
abbrev pub max_replication_keys_per_request : ℕ
max_replication_keys_per_request = 500

module _ {P : Type 0} (peers : Ord P) where
  -- `sorted_based_on_key.last()` against the peer that joined or left
  unfoldable pub choose_target : P → Bool → Option P → Option P
  choose_target peer_id is_removal none = if is_removal then none else some peer_id
  choose_target peer_id is_removal (some farthest) =
      if eqb peers farthest peer_id
      then none
      else (if is_removal then some farthest else some peer_id)

  unfoldable pub target_among : P → Bool → List P → Option P
  unfolding choose_target last
  target_among peer_id is_removal sorted =
      let target = choose_target peer_id is_removal (last sorted) in
      if any (λ q. eqb peers q peer_id) sorted then target else none

  unfoldable pub keys_at : {A : Type 0} → P → List (P × List A) → List A
  unfolding lookup
  keys_at p m = elim (lookup peers p m) [ none ↦ [] | some keys ↦ keys ]

  module _ {A : Type 0} (distance : A → P → ℕ) where
    unfoldable pub target_of : P → Bool → List P → A → Outcome PeersError (Option P)
    unfolding sort_peers_by_key target_among
    target_of peer_id is_removal all_peers key = do
      sorted_based_on_key ← sort_peers_by_key (distance key) all_peers (close_group_size + 1)
      ok (target_among peer_id is_removal sorted_based_on_key)

    -- `replicate_to.entry(target).or_insert(vec![]).push(key)`
    unfoldable pub add_key : Option P → A → List (P × List A) → List (P × List A)
    unfolding keys_at
    add_key none key m = m
    add_key (some target) key m = insert peers target (keys_at target m ++ key ∷ []) m

    -- The loop over the records.
    unfoldable pub assign_keys :
        P → Bool → List P → List A → List (P × List A) → Outcome PeersError (List (P × List A))
    unfolding target_of add_key
    assign_keys peer_id is_removal all_peers [] m = ok m
    assign_keys peer_id is_removal all_peers (key ∷ keys) m = do
      target ← target_of peer_id is_removal all_peers key
      assign_keys peer_id is_removal all_peers keys (add_key target key m)

-- The loop that splits the keys; it ends within as many turns as there are keys.
unfoldable pub split_keys : {A : Type 0} → ℕ → List A → List (List A)
split_keys zero keys = keys ∷ []
split_keys (suc turns) keys =
    let rest = split_keys turns (drop max_replication_keys_per_request keys) in
    if ltb max_replication_keys_per_request (length keys)
    then take max_replication_keys_per_request keys ∷ rest
    else keys ∷ []

-- The messages to the peers of the map, in its order.
unfoldable pub replicate_messages : {P A : Type 0} → List (P × List A) → List (P × List A)
unfolding split_keys
replicate_messages [] = []
replicate_messages ((peer, keys) ∷ m) =
    map (λ batch. (peer, batch)) (split_keys (length keys) keys) ++ replicate_messages m

module _ {P : Type 0} (peers : Ord P) {A : Type 0} (distance : A → P → ℕ) where
  -- `k_value` is kad's; the peers contain the node itself.
  unfoldable pub try_trigger_replication :
      ℕ → List P → List A → P → Bool → Outcome PeersError (List (P × List A))
  unfolding assign_keys replicate_messages
  try_trigger_replication k_value all_peers all_records peer_id is_removal =
      let considered = if is_removal then all_peers ++ peer_id ∷ [] else all_peers in
      let sent = assign_keys peers distance peer_id is_removal considered all_records [] >>= λ m.
      ok (replicate_messages m) in
      if ltb (length all_peers) k_value then ok [] else sent
