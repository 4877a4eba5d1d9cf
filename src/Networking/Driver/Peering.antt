-- ===== src/Networking/Driver/Peering.antt =====
-- The close group of a node: event.rs and `is_in_close_range` of cmd.rs.
use safe_network.Base.{
  ℕ, ◌+◌, List, [], ◌∷◌, ◌++◌, Option, none, some, Bool, true, not, leb, length, filter, any,
  if◌then◌else◌,
}
use safe_network.Base.Order.{eqb}
use safe_network.Base.Outcome.{Outcome, ok, err}
use safe_network.Networking.RecordStore.{Kademlia, last, set_distance_range}
use safe_network.Networking.Quorum.{Peers, close_group_size}
use safe_network.Networking.Peers.{PeersError, sort_peers_by_key}
use safe_network.Networking.Driver.{
  Net, SwarmDriver, Env, Handler, return, get, modify, ◌>>=◌, ◌>>◌,
}

unfoldable pub concat : {A : Type 0} → List (List A) → List A
concat [] = []
concat (xs ∷ xss) = xs ++ concat xss

abbrev pub is_among : (p : Peers) → List p.PeerId → p.PeerId → Bool
is_among p peers peer = any (λ q. eqb p.peer_ord q peer) peers

module _ {p : Peers} {k : Kademlia} (n : Net p k) where
  -- The distance between a peer and an address.
  abbrev pub peer_distance : n.NetworkAddress → p.PeerId → ℕ
  peer_distance address peer =
      k.distance (n.as_kbucket_key address) (n.as_kbucket_key (n.from_peer peer))

  unfoldable pub is_in_close_range : n.NetworkAddress → List p.PeerId → Bool
  unfolding sort_peers_by_key
  is_in_close_range target all_peers =
      let sorted = sort_peers_by_key (peer_distance target) all_peers (close_group_size + 2) in
      if leb (length all_peers) (close_group_size + 2)
      then true
      else (elim sorted [ ok close_group ↦ is_among p close_group p.self_peer_id | err e ↦ true ])

module _ {p : Peers} {k : Kademlia} {n : Net p k} where
  unfoldable pub get_all_local_peers : Env n → List p.PeerId
  unfolding concat
  get_all_local_peers env = concat env.kbuckets ++ p.self_peer_id ∷ []

  -- The range that the last peer of the close group sets.
  unfoldable pub set_range_to : Option p.PeerId → Handler n (Option (Unit {0}))
  unfolding set_distance_range
  set_range_to none = return none
  set_range_to (some peer) = do
    modify (λ (e : SwarmDriver n). record e {
      store = set_distance_range e.store (peer_distance n (n.from_peer peer) p.self_peer_id);
    })
    return (some tt)

  unfoldable pub update_record_distance_range : Handler n (Option (Unit {0}))
  unfolding last set_range_to
  update_record_distance_range = do d ← get; set_range_to (last d.close_group)

  unfoldable pub adopt_close_group :
      List p.PeerId → List p.PeerId → Handler n (Option (List p.PeerId))
  unfolding update_record_distance_range
  adopt_close_group closest [] = return none
  adopt_close_group closest (m ∷ new_members) = do
    modify (λ (d : SwarmDriver n). record d { close_group = closest })
    updated ← update_record_distance_range
    return (some (m ∷ new_members))

  -- Where there are too few peers, `.ok()?` ends the check.
  unfoldable pub compare_close_group :
      List p.PeerId → Outcome PeersError (List p.PeerId) → Handler n (Option (List p.PeerId))
  unfolding adopt_close_group
  compare_close_group old (err e) = return none
  compare_close_group old (ok closest) =
      adopt_close_group closest (filter (λ q. not (is_among p old q)) closest)

  unfoldable pub check_for_change_in_our_close_group : Env n → Handler n (Option (List p.PeerId))
  unfolding sort_peers_by_key compare_close_group get_all_local_peers
  check_for_change_in_our_close_group env = do
    d ← get
    compare_close_group d.close_group (
        sort_peers_by_key (peer_distance n (n.from_peer p.self_peer_id)) (get_all_local_peers env)
          close_group_size)
