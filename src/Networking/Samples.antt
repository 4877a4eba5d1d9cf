-- ===== src/Networking/Samples.antt =====
-- Concrete stores, fetchers, peers and networks that the tests of sn_networking use: keys, peers,
-- addresses and identifiers are numbers.
use safe_network.Base.{ℕ, ◌+◌, List, [], ◌∷◌, none, some, true, false, arith, refl}
use safe_network.Base.Order.{nat_ord}
use safe_network.Base.SortBy.{perm_refl}
use safe_network.Registers.Deps.{Bytes}
use safe_network.Samples.{same}
use safe_network.Networking.Fetcher.{Holder}
use safe_network.Networking.Fetcher.Invariant.{IsShuffle}
use safe_network.Networking.RecordStore.{Kademlia, Record, RecordStore}
use safe_network.Networking.RecordStore.Puts.{WellFormed, IsSymmetric}
use safe_network.Networking.Quorum.{Peers, PeerRecord}
use safe_network.Networking.Driver.{Net, Env, SwarmDriver}

abbrev pub keep_order : List (ℕ × List (ℕ × Holder)) → List (ℕ × List (ℕ × Holder))
keep_order l = l

pub keep_order-IsShuffle : IsShuffle keep_order
keep_order-IsShuffle l = perm_refl l

-- Distances are sums, which are symmetric.
abbrev pub kademlia : Kademlia
kademlia = record {
  Key = ℕ;
  key_ord = nat_ord;
  KBucketKey = ℕ;
  kbucket_key = λ k. k;
  distance = ◌+◌;
  Publisher = ℕ;
  Instant = ℕ;
  cost_factor = 5;
}

pub kademlia-IsSymmetric : IsSymmetric kademlia
kademlia-IsSymmetric a b = omega arith

abbrev pub full_store : RecordStore kademlia
full_store = record {
  local_key = 0;
  max_records = 2;
  max_value_bytes = 100;
  records = 3 ∷ 9 ∷ [];
  has_event_sender = true;
  distance_range = none;
}

abbrev pub near : Record kademlia
near = record { key = 5; value = 1 ∷ []; publisher = none; expires = none }

pub full_store-WellFormed : WellFormed full_store
full_store-WellFormed = record {
  is_set = ((refl, tt), (tt, tt));
  within = omega arith;
  positive = omega arith;
}

-- The name of a content is its first byte.
unfoldable pub first_byte : Bytes → ℕ
first_byte [] = 0
first_byte (b ∷ bytes) = b

abbrev pub five_peers : Peers
five_peers = record {
  PeerId = ℕ;
  peer_ord = nat_ord;
  XorName = ℕ;
  name_ord = nat_ord;
  from_content = first_byte;
  self_peer_id = 0;
}

abbrev pub net : Net five_peers kademlia
net = record {
  QueryId = ℕ;
  RequestId = ℕ;
  Sender = ℕ;
  Channel = ℕ;
  Request = ℕ;
  Response = ℕ;
  Ip4 = ℕ;
  is_unspecified = λ ip. false;
  is_private = λ ip. false;
  is_loopback = λ ip. false;
  is_link_local = λ ip. false;
  is_documentation = λ ip. false;
  is_broadcast = λ ip. false;
  Other = ℕ;
  NatStatus = ℕ;
  NetworkAddress = ℕ;
  query_eq = same nat_ord;
  request_eq = same nat_ord;
  key_eq = same nat_ord;
  as_record_key = λ a. some a;
  from_record_key = λ key. key;
  as_kbucket_key = λ a. a;
  from_peer = λ peer. peer;
  k_value = 20;
}

abbrev pub env_of_net : Env net
env_of_net = record {
  kbuckets = (1 ∷ 2 ∷ []) ∷ (3 ∷ 4 ∷ []) ∷ [];
  closest_local_peers = λ key. 1 ∷ 2 ∷ [];
  connected_peers = [];
  listeners = [];
  query_id = 7;
  request_id = 8;
  is_open = λ sender. true;
  accepts_response = λ channel. true;
  put_accepted = true;
  addr_accepted = true;
  clock = λ t. t;
  shuffle = keep_order;
  disk = λ key. none;
  hash_order = λ m. m;
}

-- A copy of the record 5, from a peer, with one byte as its content.
abbrev pub copy_of : ℕ → ℕ → PeerRecord five_peers kademlia
copy_of peer byte = record {
  peer = some peer;
  found = record { key = 5; value = byte ∷ []; publisher = none; expires = none };
}

-- A driver that waits for copies: the query 7 has none so far.
abbrev pub waiting_driver : SwarmDriver net
waiting_driver = record {
  store = full_store;
  pending_get_closest_peers = [];
  pending_requests = [];
  pending_get_record = (7, (40, [])) ∷ [];
  replication_fetcher = record { to_be_fetched = []; on_going_fetches = 0 };
  is_local = true;
  dialed_peers = record { inner = []; capacity = 63 };
  close_group = [];
  bootstrap_done = false;
  is_client = false;
}
