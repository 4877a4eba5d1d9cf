-- ===== src/Networking/Driver/Addresses.antt =====
-- The addresses of sn_networking/src/lib.rs, and `dial` of cmd.rs.
use safe_network.Base.{[], ◌∷◌, Option, none, some, Bool, true, false, not, ◌||◌, any, filter}
use safe_network.Networking.RecordStore.{Kademlia}
use safe_network.Networking.Quorum.{Peers}
use safe_network.Networking.Driver.{
  Net, Protocol, Multiaddr, ip4, p2p, other_protocol, Handler, emit, dial,
}

module _ {p : Peers} {k : Kademlia} (n : Net p k) where
  unfoldable pub is_local_protocol : Protocol n → Bool
  is_local_protocol (ip4 ip) =
      n.is_unspecified ip
      || n.is_private ip
      || n.is_loopback ip
      || n.is_link_local ip
      || n.is_documentation ip
      || n.is_broadcast ip
  is_local_protocol (p2p peer) = false
  is_local_protocol (other_protocol x) = false

  unfoldable pub multiaddr_is_global : Multiaddr n → Bool
  unfolding is_local_protocol
  multiaddr_is_global addr = not (any is_local_protocol addr)

  unfoldable pub is_p2p : Protocol n → Bool
  is_p2p (p2p peer) = true
  is_p2p (ip4 ip) = false
  is_p2p (other_protocol x) = false

  unfoldable pub multiaddr_strip_p2p : Multiaddr n → Multiaddr n
  unfolding is_p2p
  multiaddr_strip_p2p addr = filter (λ x. not (is_p2p x)) addr

  -- The peer that is popped, and the address that is left.
  unfoldable pub multiaddr_pop_p2p : Multiaddr n → Option p.PeerId × Multiaddr n
  multiaddr_pop_p2p [] = (none, [])
  multiaddr_pop_p2p (p2p peer ∷ []) = (some peer, [])
  multiaddr_pop_p2p (x ∷ []) = (none, x ∷ [])
  multiaddr_pop_p2p (x ∷ y ∷ rest) =
      let popped = multiaddr_pop_p2p (y ∷ rest) in (popped.0, x ∷ popped.1)

module _ {p : Peers} {k : Kademlia} {n : Net p k} where
  -- Whether libp2p accepts the address is answered by the caller.
  unfoldable pub dial_address : Multiaddr n → Handler n (Unit {0})
  unfolding multiaddr_pop_p2p
  dial_address addr = let (peer, rest) = multiaddr_pop_p2p n addr in emit (dial peer rest ∷ [])
