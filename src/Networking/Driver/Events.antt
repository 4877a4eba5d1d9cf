-- ===== src/Networking/Driver/Events.antt =====
-- `handle_swarm_events` of sn_networking/src/event.rs, and the loop of `run` in lib.rs.
use safe_network.Base.{
  List, [], ◌∷◌, ◌++◌, Bool, true, false, not, ◌||◌, ◌&&◌, filter, map, if◌then◌else◌, ◌⊎◌, inl,
  inr,
}
use safe_network.Base.Outcome.{Outcome, ok, err}
use safe_network.Networking.CircularVec
use safe_network.Networking.CircularVec.{push}
use safe_network.Networking.RecordStore.{Kademlia, RecordStore}
use safe_network.Networking.Quorum.{Peers}
use safe_network.Networking.Driver.{
  Net, Multiaddr, p2p, SwarmDriver, Env, Handler, handler, Ran, Effect, return, get, emit,
  send_event, ◌>>=◌, ◌>>◌, peer_removed, new_listen_addr, nat_status_changed, kad_add_address,
  autonat_add_server, add_external_address, circular_vec_pop_front_error,
}
use safe_network.Networking.Driver.Peering.{check_for_change_in_our_close_group, is_among}
use safe_network.Networking.Driver.Addresses.{
  multiaddr_is_global, multiaddr_strip_p2p, dial_address,
}
use safe_network.Networking.Driver.Commands.{SwarmCmd, handle_cmd}
use safe_network.Networking.Driver.Messages.{MsgEvent, handle_msg}
use safe_network.Networking.Driver.Queries.{KademliaEvent, ignore_error, handle_kad_event}

module _ {p : Peers} {k : Kademlia} (n : Net p k) where
  -- identify's `Info`: whether the agent is a node and AutoNAT is among its protocols
  pub record Info : Type 0 where
    pub is_node_agent : Bool
    pub listen_addrs : List (Multiaddr n)
    pub has_autonat : Bool

  -- libp2p's `SwarmEvent`, as far as the handler reads it
  pub data SwarmEvent : Type 0 where
    msg_event : MsgEvent n → SwarmEvent
    kad_event : KademliaEvent n → SwarmEvent
    identify_received : p.PeerId → Info → SwarmEvent
    mdns_discovered : List (p.PeerId × Multiaddr n) → SwarmEvent
    listening : Multiaddr n → SwarmEvent
    -- whether the node dialed
    connection_established : p.PeerId → Bool → SwarmEvent
    -- whether the peer was in the routing table, from which it is removed
    outgoing_connection_error : p.PeerId → Bool → SwarmEvent
    nat_changed : n.NatStatus → SwarmEvent
    other_event : SwarmEvent

-- `.unique()` needs equality of addresses, and keeps the first of equal ones.
unfoldable pub unique : {A : Type 0} → (A → A → Bool) → List A → List A
unique same [] = []
unique same (x ∷ xs) = x ∷ filter (λ y. not (same x y)) (unique same xs)

module _ {p : Peers} {k : Kademlia} {n : Net p k} where
  -- The driver that `with` makes.
  unfoldable pub new_driver : RecordStore k → Bool → Bool → SwarmDriver n
  new_driver store local client = record {
    store = store;
    pending_get_closest_peers = [];
    pending_requests = [];
    pending_get_record = [];
    replication_fetcher = record { to_be_fetched = []; on_going_fetches = 0 };
    is_local = local;
    dialed_peers = CircularVec.new 63;
    close_group = [];
    bootstrap_done = false;
    is_client = client;
  }

  unfoldable pub is_dialed : p.PeerId → SwarmDriver n → Bool
  is_dialed peer d = is_among p d.dialed_peers.inner peer

  unfoldable pub servers : p.PeerId → Bool → List (Multiaddr n) → List (Effect n)
  servers peer true addrs = map (autonat_add_server peer) addrs
  servers peer false addrs = []

  unfoldable pub on_identify :
      (Multiaddr n → Multiaddr n → Bool) → Bool → p.PeerId → Info n → Handler n (Unit {0})
  unfolding is_dialed unique multiaddr_is_global multiaddr_strip_p2p servers
  on_identify same autonat_enabled peer info = do
    d ← get
    let reachable =
        if d.is_local then info.listen_addrs else filter (multiaddr_is_global n) info.listen_addrs
    let addrs = unique same (map (multiaddr_strip_p2p n) reachable)
    if (d.is_local || is_dialed peer d) && info.is_node_agent
        then emit (
            map (kad_add_address peer) addrs
            ++ servers peer (info.has_autonat && autonat_enabled) addrs)
        else return tt

  unfoldable pub dial_all : List (p.PeerId × Multiaddr n) → Handler n (Unit {0})
  unfolding dial_address
  dial_all [] = return tt
  dial_all ((peer, addr) ∷ discovered) = do
    dial_address (addr ++ p2p peer ∷ [])
    dial_all discovered

  unfoldable pub on_listening : Multiaddr n → Handler n (Unit {0})
  unfolding multiaddr_is_global
  on_listening addr = do
    d ← get
    let address = addr ++ p2p p.self_peer_id ∷ []
    emit (
        if not d.is_client && (d.is_local || multiaddr_is_global n address)
        then add_external_address address ∷ []
        else [])
    send_event (new_listen_addr address)

  unfoldable pub after_push :
      Outcome CircularVec.Error (CircularVec.CircularVec p.PeerId)
      → SwarmDriver n
      → Ran n (Unit {0})
  after_push (ok v) d = record {
    result = ok tt;
    driver = record d { dialed_peers = v };
    effects = [];
  }
  after_push (err e) d = record {
    result = err circular_vec_pop_front_error;
    driver = d;
    effects = [];
  }

  unfoldable pub remember_dialed : p.PeerId → Handler n (Unit {0})
  unfolding push after_push
  remember_dialed peer = handler (λ d. after_push (push d.dialed_peers peer) d)

  -- Equality of addresses, and whether AutoNAT is enabled, are the swarm's.
  module _ (same : Multiaddr n → Multiaddr n → Bool) (autonat_enabled : Bool) where
    unfoldable pub handle_swarm_events : Env n → SwarmEvent n → Handler n (Unit {0})
    unfolding ignore_error handle_msg handle_kad_event on_identify dial_all on_listening
        remember_dialed check_for_change_in_our_close_group
    handle_swarm_events env (msg_event e) = ignore_error (handle_msg env e)
    handle_swarm_events env (kad_event e) = handle_kad_event env e
    handle_swarm_events env (identify_received peer info) =
        on_identify same autonat_enabled peer info
    handle_swarm_events env (mdns_discovered list) = do
      d ← get
      if d.is_local then dial_all list else return tt
    handle_swarm_events env (listening addr) = on_listening addr
    handle_swarm_events env (connection_established peer true) = remember_dialed peer
    handle_swarm_events env (connection_established peer false) = return tt
    handle_swarm_events env (outgoing_connection_error peer true) = do
      send_event (peer_removed peer)
      changed ← check_for_change_in_our_close_group env
      return tt
    handle_swarm_events env (outgoing_connection_error peer false) = return tt
    handle_swarm_events env (nat_changed status) = send_event (nat_status_changed status)
    handle_swarm_events env other_event = return tt

    -- One turn of the loop of `run`; an error is only logged.
    unfoldable pub turn : Env n → SwarmEvent n ⊎ SwarmCmd n → Handler n (Unit {0})
    unfolding handle_swarm_events handle_cmd ignore_error
    turn env (inl e) = ignore_error (handle_swarm_events env e)
    turn env (inr c) = ignore_error (handle_cmd env c)

    unfoldable pub run : List (Env n × (SwarmEvent n ⊎ SwarmCmd n)) → Handler n (Unit {0})
    unfolding turn
    run [] = return tt
    run ((env, e) ∷ rest) = do turn env e; run rest
