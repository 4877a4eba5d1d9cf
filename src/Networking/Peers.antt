-- ===== src/Networking/Peers.antt =====
-- sn_networking/src/lib.rs: the peers that are closest to an address. `sort_by` is stable, as is
-- `Base.SortBy.sort_by_key`.
use mathlib.Core.List.{Permᴰ}
use safe_network.Base.{
  ℕ, ◌≡◌, refl, min, List, ◌++◌, ltb, length, length-take, ap, ◌∙◌, take, if◌then◌else◌,
}
use safe_network.Base.Outcome.{Outcome, ok, err}
use safe_network.Base.SortBy.{
  sort_by_key, sort_by_key-Perm, sort_by_key-IsAscending, IsAscending, Before, take-Before,
  take-IsAscending, take-drop, drop, length-Perm,
}
use safe_network.Networking.Quorum.{close_group_size}

-- `Error::NotEnoughPeers`
pub data PeersError : Type 0 where
  not_enough_peers : ℕ → ℕ → PeersError

module _ {PeerId : Type 0} (distance : PeerId → ℕ) where
  unfoldable pub sort_peers_by_key : List PeerId → ℕ → Outcome PeersError (List PeerId)
  sort_peers_by_key peers expected_entries =
      let closest = take expected_entries (sort_by_key distance peers) in
      if ltb (length closest) close_group_size
      then err (not_enough_peers (length closest) close_group_size)
      else ok closest

  -- The closest of some peers, in ascending order of their distance: `rest` are the others.
  pub record Closest (peers : List PeerId) (n : ℕ) (closest : List PeerId) : Type 0 where
    pub rest : List PeerId
    pub permutes : Permᴰ (closest ++ rest) peers
    pub before : Before distance closest rest
    pub ascending : IsAscending distance closest
    pub size : length closest ≡ min n (length peers)

  -- There are closest peers, in ascending order, as many as are expected or there are, with none
  -- of the rest nearer; the result is those peers, or, if they are fewer than eight, an error
  -- with their number.
  pub sort_peers_by_key_lem :
      (peers : List PeerId) (expected_entries : ℕ)
      → (closest : List PeerId) × Closest peers expected_entries closest
        × (sort_peers_by_key peers expected_entries ≡ (
            if ltb (min expected_entries (length peers)) 8
            then err (not_enough_peers (min expected_entries (length peers)) 8)
            else ok closest))
  unfolding sort_peers_by_key
  sort_peers_by_key_lem peers n =
      let sorted = sort_by_key distance peers in
      let perm = sort_by_key-Perm distance peers in
      let ascending = sort_by_key-IsAscending distance peers in
      let size : length (take n sorted) ≡ min n (length peers) =
        length-take n sorted ∙ ap (min n) (length-Perm perm) in
      (
        take n sorted,
        record {
          rest = drop n sorted;
          permutes = rw (take-drop n sorted) perm;
          before = take-Before distance n sorted ascending;
          ascending = take-IsAscending distance n sorted ascending;
          size = size;
        },
        rw size refl,
      )
