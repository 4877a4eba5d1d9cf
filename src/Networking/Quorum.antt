-- ===== src/Networking/Quorum.antt =====
-- sn_networking/src/event.rs: how the answers to one `get_record` query are counted
-- (`accumulate_get_record_ok`), and which copy of a split record the node keeps
-- (`try_update_self_for_split_record`); the sizes of a close group are those of lib.rs.
pub mod Votes
pub mod Answers
pub mod Leads
pub mod Split
use safe_network.Base.{
  ℕ, suc, ◌+◌, ◌/◌, List, [], ◌∷◌, Option, none, some, Bool, true, false, ltb, leb, ◌==◌, length,
  if◌then◌else◌,
}
use safe_network.Base.Order.{Ord, eqb}
use safe_network.Base.Outcome.{Outcome, ok, err}
use safe_network.Base.SortedSet
use safe_network.Base.SortedMap
use safe_network.Registers.Deps.{Bytes}
use safe_network.Networking.RecordStore.{Kademlia, Record}

abbrev pub close_group_size : ℕ
close_group_size = 8

unfoldable pub close_group_majority : ℕ
close_group_majority = close_group_size / 2 + 1

-- libp2p's peers, and the names of `xor_name`.
pub record Peers : Type 1 where
  pub PeerId : Type 0
  pub peer_ord : Ord PeerId
  pub XorName : Type 0
  pub name_ord : Ord XorName
  pub from_content : Bytes → XorName
  pub self_peer_id : PeerId

-- sn_networking's `Error`, as far as a read of a record gives it
pub data GetError (k : Kademlia) : Type 0 where
  record_not_found : GetError k
  record_not_enough_copies : Record k → GetError k

module _ (p : Peers) (k : Kademlia) where
  -- A record with the set of the peers that gave it.
  pub record Copies : Type 0 where
    pub copy : Record k
    pub peers : List p.PeerId

  -- `GetRecordResultMap`: by the name of the content.
  abbrev pub GetRecordResultMap : Type 0
  GetRecordResultMap = List (p.XorName × Copies)

  -- kad's `PeerRecord`: no peer stands for the node itself.
  pub record PeerRecord : Type 0 where
    pub peer : Option p.PeerId
    pub found : Record k

module _ {p : Peers} {k : Kademlia} where
  unfoldable pub sender_of : PeerRecord p k → p.PeerId
  sender_of r = elim r.peer [ none ↦ p.self_peer_id | some peer ↦ peer ]

  unfoldable pub content_of : PeerRecord p k → p.XorName
  content_of r = p.from_content r.found.value

  -- The peers that are held with a name, with the one that answers now.
  unfoldable pub add_peer : p.PeerId → Option (Copies p k) → List p.PeerId
  add_peer peer none = SortedSet.insert p.peer_ord peer []
  add_peer peer (some copies) = SortedSet.insert p.peer_ord peer copies.peers

  unfoldable pub peer_list : PeerRecord p k → GetRecordResultMap p k → List p.PeerId
  unfolding sender_of content_of add_peer
  peer_list r m = add_peer (sender_of r) (SortedMap.lookup p.name_ord (content_of r) m)

  -- The name is removed from the map and inserted again.
  unfoldable pub add_copy : PeerRecord p k → GetRecordResultMap p k → GetRecordResultMap p k
  unfolding content_of peer_list
  add_copy r m =
      SortedMap.insert p.name_ord (content_of r) (record { copy = r.found; peers = peer_list r m })
        (SortedMap.remove p.name_ord (content_of r) m)

  -- What the query is answered with, if it is answered: `count` is the step of the query.
  unfoldable pub query_result :
      PeerRecord p k → ℕ → GetRecordResultMap p k → Option (Outcome (GetError k) (Record k))
  unfolding close_group_majority peer_list
  query_result r count m =
      if leb close_group_majority (length (peer_list r m))
      then some (ok r.found)
      else (if leb close_group_size count then some (err record_not_found) else none)

  -- The answer, and the map with the answering peer counted.
  unfoldable pub accumulate_get_record_ok :
      PeerRecord p k
      → ℕ
      → GetRecordResultMap p k
      → Option (Outcome (GetError k) (Record k)) × GetRecordResultMap p k
  unfolding query_result add_copy
  accumulate_get_record_ok r count m = (query_result r count m, add_copy r m)

  -- One turn of the loop over the map: the highest count so far, and the copies that have it.
  unfoldable pub count_votes :
      p.XorName → Copies p k → ℕ × GetRecordResultMap p k → ℕ × GetRecordResultMap p k
  count_votes name copies (highest, best) =
      if ltb highest (length copies.peers)
      then (length copies.peers, (name, copies) ∷ [])
      else (if leb highest (length copies.peers)
          then (length copies.peers, SortedMap.insert p.name_ord name copies best)
          else (highest, best))

  unfoldable pub highest_records :
      GetRecordResultMap p k → ℕ × GetRecordResultMap p k → ℕ × GetRecordResultMap p k
  unfolding count_votes
  highest_records [] best = best
  highest_records ((name, copies) ∷ m) best = highest_records m (count_votes name copies best)

  -- The first of the copies with the most votes, unless the node is among its holders.
  unfoldable pub unless_held : GetRecordResultMap p k → Option (Record k)
  unless_held [] = none
  unless_held ((name, copies) ∷ m) =
      if SortedSet.contains p.peer_ord p.self_peer_id copies.peers then none else some copies.copy

  -- The record that the node then tries to put in its own store, in `Driver.Queries.update_self`.
  unfoldable pub try_update_self_for_split_record : GetRecordResultMap p k → Option (Record k)
  unfolding highest_records unless_held
  try_update_self_for_split_record m =
      if length m == 1 then none else unless_held (highest_records m (0, [])).1
