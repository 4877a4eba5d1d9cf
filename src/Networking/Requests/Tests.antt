-- ===== src/Networking/Requests/Tests.antt =====
-- The theorems on the requests of `Network`, where keys, peers and costs are numbers.
use mathlib.Core.Path.{◌≡◌}
use safe_network.Base.{
  ℕ, Option, none, ◌<◌, ◌≤◌, ◌-◌, min, refl, List, [], ◌∷◌, some, true, false, length, ◌⊎◌,
  if◌then◌else◌, ltb, arith, ◌==◌,
}
use safe_network.Base.Order.{nat_ord}
use safe_network.Base.Outcome.{Outcome, ok, err}
use safe_network.Samples.{same, ord_by, pair_ord, list_ord}
use safe_network.Networking.Samples.{kademlia, near}
use safe_network.Networking.RecordStore.{Record}
use safe_network.Networking.Quorum.{GetError, record_not_found}
use safe_network.Networking.Peers.{
  Closest, sort_peers_by_key, not_enough_peers, sort_peers_by_key_lem,
}
use safe_network.Networking.Requests.{
  NetworkError, put_refused, not_enough_cost_quotes, is_target, judge, attempts,
  get_record_from_network, verify_put, put_record_once, retries, put_record_with_retries,
  get_fee_from_store_cost_quotes,
}
use safe_network.Networking.Requests.Attempts.{
  GaveAt, Matches, get_record_from_network_sound, put_record_with_retries_sound,
}
use safe_network.Networking.Requests.Quotes.{IsRanked, required, get_fee_lem}

abbrev option_items : Option ℕ → List ℕ
option_items none = []
option_items (some a) = a ∷ []

abbrev record_parts : Record kademlia → (ℕ × List ℕ) × (List ℕ × List ℕ)
record_parts r = ((r.key, r.value), (option_items r.publisher, option_items r.expires))

option_items_inj : (x y : Option ℕ) → option_items x ≡ option_items y → x ≡ y
option_items_inj none none h = refl
option_items_inj none (some b) h = cc
option_items_inj (some a) none h = cc
option_items_inj (some a) (some b) h = cc

record_parts_inj : (x y : Record kademlia) → record_parts x ≡ record_parts y → x ≡ y
record_parts_inj x y h =
    ground (arith, option_items_inj x.publisher y.publisher, option_items_inj x.expires y.expires)

abbrev same_record : Discrete (Record kademlia)
same_record = same (
    ord_by
      (pair_ord (pair_ord nat_ord (list_ord nat_ord))
        (pair_ord (list_ord nat_ord) (list_ord nat_ord)))
      record_parts record_parts_inj)

-- The first attempt finds nothing, the later ones the record.
abbrev ask_twice :
    ℕ → ℕ → Outcome (NetworkError kademlia) (Outcome (GetError kademlia) (Record kademlia))
ask_twice key i = if i == 0 then ok (err record_not_found) else ok (ok near)

get_record_from_network_sound_example :
    Matches same_record (some near) near
    × ((j : ℕ) × (j < 30) × GaveAt same_record (ask_twice 5) near j 30)
get_record_from_network_sound_example =
    get_record_from_network_sound same_record ask_twice 5 (some near) true near
      (unfold get_record_from_network attempts judge is_target in refl)

abbrev accepted :
    ℕ
    → Record kademlia
    → Outcome (NetworkError kademlia) (Outcome (NetworkError kademlia) (Unit {0}))
accepted i r = if r.key == 5 then ok (ok tt) else ok (err put_refused)

put_record_with_retries_sound_example :
    (t : ℕ) × (t < 3)
    × (accepted t near ≡ ok (ok tt))
    × ((j : ℕ) × (j < 30) × GaveAt same_record (ask_twice 5) near j 30)
put_record_with_retries_sound_example =
    put_record_with_retries_sound same_record accepted (λ t. ask_twice) near tt
      (unfold put_record_with_retries retries put_record_once verify_put get_record_from_network
          attempts judge is_target in
        refl)

abbrev quotes : List ℕ
quotes = 40 ∷ 10 ∷ 30 ∷ 20 ∷ 60 ∷ 50 ∷ []

get_fee_lem_example :
    ((required false ≤ length quotes)
      × ((cost : ℕ) × (get_fee_from_store_cost_quotes {k = kademlia} quotes false ≡ ok cost)
          × IsRanked quotes (min 4 (length quotes - 1)) cost))
    ⊎ ((length quotes < required false)
        × (get_fee_from_store_cost_quotes {k = kademlia} quotes false ≡ err not_enough_cost_quotes))
get_fee_lem_example = get_fee_lem quotes false

abbrev ten_peers : List ℕ
ten_peers = 9 ∷ 1 ∷ 8 ∷ 2 ∷ 7 ∷ 3 ∷ 6 ∷ 4 ∷ 5 ∷ 10 ∷ []

sort_peers_by_key_lem_example :
    (closest : List ℕ) × Closest (λ peer. peer) ten_peers 8 closest
    × (sort_peers_by_key (λ peer. peer) ten_peers 8 ≡ (
        if ltb (min 8 (length ten_peers)) 8
        then err (not_enough_peers (min 8 (length ten_peers)) 8)
        else ok closest))
sort_peers_by_key_lem_example = sort_peers_by_key_lem (λ peer. peer) ten_peers 8
