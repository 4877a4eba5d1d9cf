-- ===== src/Networking/Quorum/Votes.antt =====
-- The map of event.rs against the votes it stands for: for each content, the set of the peers that
-- answered with it.
use safe_network.Base.{
  ◌&&◌, any, ◌≡◌, refl, arith, List, [], ◌∷◌, Option, none, some, if◌then◌else◌,
}
use safe_network.Base.Order.{eqb}
use safe_network.Base.SortedSet
use safe_network.Base.SortedSet.{collect}
use safe_network.Base.SortedMap
use safe_network.Networking.RecordStore.{Kademlia}
use safe_network.Networking.Quorum.{
  Peers, PeerRecord, Copies, GetRecordResultMap, sender_of, content_of, add_peer, peer_list,
  add_copy,
}

module _ {p : Peers} {k : Kademlia} where
  -- The set of the peers that voted for a content, the last answer first.
  unfoldable pub votes : p.XorName → List (PeerRecord p k) → List p.PeerId
  unfolding sender_of content_of
  votes name [] = []
  votes name (r ∷ earlier) =
      let rest = votes name earlier in
      if eqb p.name_ord name (content_of r)
      then SortedSet.insert p.peer_ord (sender_of r) rest
      else rest

  pub votes-IsSorted :
      (name : p.XorName) (answers : List (PeerRecord p k))
      → SortedSet.IsSorted p.peer_ord (votes name answers)
  unfolding votes
  votes-IsSorted name [] = tt
  votes-IsSorted name (r ∷ earlier) = ground (
    arith,
    votes-IsSorted name earlier,
    SortedSet.insert-IsSorted p.peer_ord (sender_of r) (votes name earlier),
  )

  -- A peer votes for a content if one of its answers has it.
  pub contains-votes :
      (peer : p.PeerId) (name : p.XorName) (answers : List (PeerRecord p k))
      → SortedSet.contains p.peer_ord peer (votes name answers)
        ≡ any (λ r. eqb p.name_ord name (content_of r) && eqb p.peer_ord peer (sender_of r)) answers
  unfolding votes SortedSet.contains
  contains-votes peer name [] = refl
  contains-votes peer name (r ∷ earlier) = ground (
    arith,
    contains-votes peer name earlier,
    SortedSet.contains-insert p.peer_ord peer (sender_of r) (votes name earlier),
  )

  abbrev pub peers_of : Option (Copies p k) → List p.PeerId
  peers_of none = []
  peers_of (some copies) = copies.peers

  pub add_peer_lem :
      (q : p.PeerId) (o : Option (Copies p k))
      → add_peer q o ≡ SortedSet.insert p.peer_ord q (peers_of o)
  unfolding add_peer
  add_peer_lem q none = refl
  add_peer_lem q (some c) = refl

  pub lookup-add_copy :
      (name : p.XorName) (r : PeerRecord p k) (m : GetRecordResultMap p k)
      → SortedMap.IsSorted p.name_ord m
      → SortedMap.lookup p.name_ord name (add_copy r m) ≡ (
          if eqb p.name_ord name (content_of r)
          then some (record { copy = r.found; peers = peer_list r m })
          else SortedMap.lookup p.name_ord name m)
  unfolding add_copy
  lookup-add_copy name r m s = ground (
    arith,
    SortedMap.lookup-insert p.name_ord name (content_of r)
        (record { copy = r.found; peers = peer_list r m })
        (SortedMap.remove p.name_ord (content_of r) m),
    SortedMap.lookup-remove p.name_ord name (content_of r) m s,
  )
