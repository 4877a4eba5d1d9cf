-- ===== src/Networking/Driver.antt =====
-- The `SwarmDriver` of sn_networking: the state of lib.rs and what its handlers do to it. A handler
-- takes the driver and gives a result, the driver it leaves (also on an error) and its effects in
-- order. libp2p's identifiers, and the channels, are parameters.
mod Tests
pub mod Peering
pub mod Addresses
pub mod Commands
pub mod Messages
pub mod Queries
pub mod Events
pub mod Invariant
pub mod Replies
pub mod Splits
use safe_network.Base.{ℕ, List, [], ◌∷◌, ◌++◌, Option, none, some, Bool, if◌then◌else◌}
use safe_network.Base.Outcome.{Outcome, ok, err}
use safe_network.Registers.Deps.{Bytes}
use safe_network.Networking.RecordStore.{Kademlia, Record, RecordStore, Task}
use safe_network.Networking.Fetcher.{ReplicationFetcher, Holder}
use safe_network.Networking.CircularVec.{CircularVec}
use safe_network.Networking.Quorum.{Peers, GetRecordResultMap, GetError}

-- libp2p and sn_protocol: `k_value` is kad's `K_VALUE`.
pub record Net (p : Peers) (k : Kademlia) : Type 1 where
  pub QueryId : Type 0
  pub RequestId : Type 0
  pub Sender : Type 0
  pub Channel : Type 0
  pub Request : Type 0
  pub Response : Type 0
  -- `Ipv4Addr` with its tests, and the parts of an address that are neither IPv4 nor a peer
  pub Ip4 : Type 0
  pub is_unspecified : Ip4 → Bool
  pub is_private : Ip4 → Bool
  pub is_loopback : Ip4 → Bool
  pub is_link_local : Ip4 → Bool
  pub is_documentation : Ip4 → Bool
  pub is_broadcast : Ip4 → Bool
  pub Other : Type 0
  pub NatStatus : Type 0
  pub NetworkAddress : Type 0
  pub query_eq : Discrete QueryId
  pub request_eq : Discrete RequestId
  pub key_eq : Discrete k.Key
  pub as_record_key : NetworkAddress → Option k.Key
  pub from_record_key : k.Key → NetworkAddress
  pub as_kbucket_key : NetworkAddress → k.KBucketKey
  pub from_peer : p.PeerId → NetworkAddress
  pub k_value : ℕ

module _ {p : Peers} {k : Kademlia} (n : Net p k) where
  open n use {QueryId, RequestId, Sender, Channel, Request, Response, NatStatus, NetworkAddress}

  -- multiaddr's `Protocol`
  pub data Protocol : Type 0 where
    ip4 : n.Ip4 → Protocol
    p2p : p.PeerId → Protocol
    other_protocol : n.Other → Protocol

  abbrev pub Multiaddr : Type 0
  Multiaddr = List Protocol

  pub data MsgResponder : Type 0 where
    from_self : Option Sender → MsgResponder
    from_peer : Channel → MsgResponder

  pub data NetworkEvent : Type 0 where
    request_received : Request → MsgResponder → NetworkEvent
    response_received : Response → NetworkEvent
    peer_added peer_removed : p.PeerId → NetworkEvent
    keys_for_replication : List (k.Key × Option p.PeerId) → NetworkEvent
    new_listen_addr : Multiaddr → NetworkEvent
    nat_status_changed : NatStatus → NetworkEvent

  -- What is sent through a one-shot channel; the errors of libp2p carry nothing that is read.
  pub data Answer : Type 0 where
    peers_answer : List p.PeerId → Answer
    record_answer : Outcome (GetError k) (Record k) → Answer
    response_answer : Outcome (Unit {0}) Response → Answer
    local_record_answer : Option (Record k) → Answer
    has_key_answer : Bool → Answer
    addresses_answer : List NetworkAddress → Answer
    store_cost_answer : ℕ → Answer
    done_answer : Outcome (Unit {0}) (Unit {0}) → Answer
    state_answer : List p.PeerId → List Multiaddr → Answer

  pub data Effect : Type 0 where
    sent : Sender → Answer → Effect
    event : NetworkEvent → Effect
    store_task : Task k → Effect
    kad_get_record : k.Key → Effect
    kad_put_record : Record k → Effect
    kad_get_closest_peers : NetworkAddress → Effect
    kad_bootstrap : Effect
    kad_add_address : p.PeerId → Multiaddr → Effect
    autonat_add_server : p.PeerId → Multiaddr → Effect
    add_external_address listen_on : Multiaddr → Effect
    dial : Option p.PeerId → Multiaddr → Effect
    send_request : RequestId → p.PeerId → Request → Effect
    send_response : Channel → Response → Effect

  -- sn_networking's `Error`; a subtraction below zero in the fetcher is `panicked`.
  pub data DriverError : Type 0 where
    internal_msg_channel_dropped outgoing_response_dropped : DriverError
    received_kademlia_event_dropped : QueryId → DriverError
    received_response_dropped : RequestId → DriverError
    record_store_error circular_vec_pop_front_error panicked : DriverError

  pub record SwarmDriver : Type 0 where
    -- the `DiskBackedRecordStore` of the swarm
    pub store : RecordStore k
    pub pending_get_closest_peers : List (QueryId × (Sender × List p.PeerId))
    pub pending_requests : List (RequestId × Option Sender)
    pub pending_get_record : List (QueryId × (Sender × GetRecordResultMap p k))
    pub replication_fetcher : ReplicationFetcher k.Key p.PeerId
    pub is_local : Bool
    pub dialed_peers : CircularVec p.PeerId
    pub close_group : List p.PeerId
    pub bootstrap_done : Bool
    pub is_client : Bool

  -- What a handler meets: the routing table, the identifiers that libp2p gives next, the clock, the
  -- disk, and which channels are still open. `hash_order` is the order of a `HashMap`.
  pub record Env : Type 0 where
    pub kbuckets : List (List p.PeerId)
    pub closest_local_peers : k.KBucketKey → List p.PeerId
    pub connected_peers : List p.PeerId
    pub listeners : List Multiaddr
    pub query_id : QueryId
    pub request_id : RequestId
    pub is_open : Sender → Bool
    pub accepts_response : Channel → Bool
    pub put_accepted : Bool
    pub addr_accepted : Bool
    pub clock : ℕ → ℕ
    pub shuffle : List (k.Key × List (p.PeerId × Holder)) → List (k.Key × List (p.PeerId × Holder))
    pub disk : k.Key → Option Bytes
    pub hash_order : GetRecordResultMap p k → GetRecordResultMap p k

  pub record Ran (A : Type 0) : Type 0 where
    pub result : Outcome DriverError A
    pub driver : SwarmDriver
    pub effects : List Effect

  -- A method of `&mut self`.
  pub data Handler (A : Type 0) : Type 0 where
    handler : (SwarmDriver → Ran A) → Handler A

module _ {p : Peers} {k : Kademlia} {n : Net p k} where
  unfoldable pub run_on : {A : Type 0} → SwarmDriver n → Handler n A → Ran n A
  run_on d (handler f) = f d

  unfoldable pub return : {A : Type 0} → A → Handler n A
  return a = handler (λ d. record { result = ok a; driver = d; effects = [] })

  -- `return Err(e)`
  unfoldable pub fail : {A : Type 0} → DriverError n → Handler n A
  fail e = handler (λ d. record { result = err e; driver = d; effects = [] })

  unfoldable pub and_then :
      {A B : Type 0}
      → Outcome (DriverError n) A
      → SwarmDriver n
      → List (Effect n)
      → (A → Handler n B)
      → Ran n B
  unfolding run_on
  and_then (ok a) d before f =
      let r = run_on d (f a) in
      record { result = r.result; driver = r.driver; effects = before ++ r.effects }
  and_then (err e) d before f = record { result = err e; driver = d; effects = before }

  infixl 5 ◌>>=◌
  unfoldable pub ◌>>=◌ : {A B : Type 0} → Handler n A → (A → Handler n B) → Handler n B
  unfolding run_on and_then
  m >>= f = handler (λ d. let r = run_on d m in and_then r.result r.driver r.effects f)

  infixl 5 ◌>>◌
  unfoldable pub ◌>>◌ : {B : Type 0} → Handler n (Unit {0}) → Handler n B → Handler n B
  m >> next = m >>= λ done. next

  unfoldable pub get : Handler n (SwarmDriver n)
  get = handler (λ d. record { result = ok d; driver = d; effects = [] })

  unfoldable pub modify : (SwarmDriver n → SwarmDriver n) → Handler n (Unit {0})
  modify change = handler (λ d. record { result = ok tt; driver = change d; effects = [] })

  unfoldable pub emit : List (Effect n) → Handler n (Unit {0})
  emit effects = handler (λ d. record { result = ok tt; driver = d; effects = effects })

  -- `self.send_event(event)`: what is given to the channel, which drops it when it is full.
  unfoldable pub send_event : NetworkEvent n → Handler n (Unit {0})
  unfolding emit
  send_event e = emit (event e ∷ [])

  -- `let _ = sender.send(answer)`
  unfoldable pub send : n.Sender → Answer n → Handler n (Unit {0})
  unfolding emit
  send sender answer = emit (sent sender answer ∷ [])

  -- `sender.send(answer).map_err(|_| Error::InternalMsgChannelDropped)?`
  unfoldable pub send_open : Env n → n.Sender → Answer n → Handler n (Unit {0})
  unfolding send fail
  send_open env sender answer =
      if env.is_open sender then send sender answer else fail internal_msg_channel_dropped
