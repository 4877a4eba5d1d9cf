-- ===== src/Networking/Fetcher/Bounds.antt =====
-- The invariant of the replication fetcher (sn_networking/src/replication_fetcher.rs), and the loops of
-- `next_keys_to_fetch`.
use safe_network.Base.{
  is_some, filter, length-filter-le, sym, ◌∷◌, [], ◌∙◌, ap, ℕ, ◌+◌, ◌≤◌, List, Option, none, some,
  Bool, false, ◌≡◌, ◌≢◌, arith, length, All,
}
use safe_network.Base.Assoc.{
  insert, length-insert-le, IsFresh, lookup, IsDistinct, lookup-insert_ne, length-insert_fresh,
}
use safe_network.Networking.Fetcher.{
  visit_key, visit_keys, start_key, finish_key, visit_holders, Holder, HolderStatus, pending,
  on_going, ReplicationFetcher, Pass, max_parallel_fetch, visit_status,
}

-- A holder that is being asked has not failed yet, and no holder has failed more than once.
abbrev pub HolderOk : Holder → Type 0
HolderOk h = (h.failed ≤ 1) × (h.status ≡ on_going → h.failed ≡ 0)

abbrev pub HoldersOk : {K P : Type 0} → K × List (P × Holder) → Type 0
HoldersOk e = All (λ x. HolderOk x.1) e.1

pub record IsValid {K P : Type 0} (f : ReplicationFetcher K P) : Type 0 where
  pub bounded : f.on_going_fetches ≤ max_parallel_fetch
  pub distinct : IsDistinct f.to_be_fetched
  pub holders_ok : All HoldersOk f.to_be_fetched

-- How many keys are to be fetched from a peer.
abbrev pub peer_requests : {K P : Type 0} → List (K × Option P) → ℕ
peer_requests m = length (filter (λ e. is_some e.1) m)

module _ {K P : Type 0} (dec : Discrete K) where
  peer_requests-insert-none :
      (k : K) (m : List (K × Option P)) → peer_requests (insert dec k none m) ≤ peer_requests m
  unfolding insert
  peer_requests-insert-none k [] = omega arith
  peer_requests-insert-none k ((j, w) ∷ m) = ground (arith, peer_requests-insert-none k m)

-- During a pass that began with `start` ongoing fetches, and room for `room` more.
pub record PassOk {K P : Type 0} (start room : ℕ) (p : Pass K P) : Type 0 where
  pub bounded : p.ongoing_count ≤ max_parallel_fetch
  pub asked : peer_requests p.keys_to_fetch ≤ room
  pub counted : p.ongoing_count ≤ start + length p.keys_to_fetch

module _ {K P : Type 0} (dec : Discrete K) (clock : ℕ → ℕ) (start room : ℕ)
    (fits : start + room ≤ max_parallel_fetch) where
  -- Until the key is added, it is not among the keys to fetch.
  abbrev AbsentUntilAdded : K → Pass K P → Type 0
  AbsentUntilAdded key p = p.key_added_to_list ≡ false → lookup dec key p.keys_to_fetch ≡ none

  module _ (no_more : Bool) (key : K) (ongoing : Option Bool) where
    visit_status-PassOk :
        (s : HolderStatus) (peer : P) (h : Holder) (p : Pass K P)
        → PassOk start room p
        → AbsentUntilAdded key p
        → PassOk start room (visit_status dec clock room no_more key ongoing s peer h p).1
    unfolding visit_status
    visit_status-PassOk pending peer h p v a = ground (
      arith,
      length-insert_fresh dec key (some peer) p.keys_to_fetch,
      length-filter-le (λ e. is_some e.1) (insert dec key (some peer) p.keys_to_fetch),
    )
    visit_status-PassOk on_going peer h p v a = ground arith

    -- A holder is handled well, the key is marked as added once it is, and other keys stay as they are.
    visit_status-absent :
        (s : HolderStatus) (peer : P) (h : Holder) (p : Pass K P)
        → AbsentUntilAdded key p
        → AbsentUntilAdded key (visit_status dec clock room no_more key ongoing s peer h p).1
    unfolding visit_status
    visit_status-absent pending peer h p a = ground arith
    visit_status-absent on_going peer h p a = ground arith

    visit_status-HolderOk :
        (peer : P) (h : Holder) (p : Pass K P)
        → HolderOk h
        → HolderOk (visit_status dec clock room no_more key ongoing h.status peer h p).0
    unfolding visit_status
    visit_status-HolderOk peer h p v = ground arith

    visit_status-other :
        (s : HolderStatus) (peer : P) (h : Holder) (p : Pass K P) (j : K)
        → j ≢ key
        → lookup dec j p.keys_to_fetch ≡ none
        → lookup dec j (visit_status dec clock room no_more key ongoing s peer h p).1.keys_to_fetch
          ≡ none
    unfolding visit_status
    visit_status-other pending peer h p j e a =
        ground (arith, lookup-insert_ne dec j key (some peer) p.keys_to_fetch e)
    visit_status-other on_going peer h p j e a = ground arith

    visit_holders-ok :
        (hs : List (P × Holder)) (p : Pass K P)
        → All (λ x. HolderOk x.1) hs
        → PassOk start room p
        → AbsentUntilAdded key p
        → All (λ x. HolderOk x.1) (visit_holders dec clock room no_more key ongoing hs p).0
          × PassOk start room (visit_holders dec clock room no_more key ongoing hs p).1
    unfolding visit_holders
    visit_holders-ok [] p v k a = (tt, k)
    visit_holders-ok ((peer, h) ∷ hs) p v k a =
        let p' = (visit_status dec clock room no_more key ongoing h.status peer h p).1 in
        let rest =
          visit_holders-ok hs p' v.1 (visit_status-PassOk h.status peer h p k a)
            (visit_status-absent h.status peer h p a) in
        ((visit_status-HolderOk peer h p v.0, rest.0), rest.1)

    visit_holders-other :
        (hs : List (P × Holder)) (p : Pass K P) (j : K)
        → j ≢ key
        → lookup dec j p.keys_to_fetch ≡ none
        → lookup dec j (visit_holders dec clock room no_more key ongoing hs p).1.keys_to_fetch
          ≡ none
    unfolding visit_holders
    visit_holders-other [] p j e a = a
    visit_holders-other ((peer, h) ∷ hs) p j e a =
        visit_holders-other hs (visit_status dec clock room no_more key ongoing h.status peer h p).1
          j e (visit_status-other h.status peer h p j e a)

  start_key-PassOk :
      (hs : List (P × Holder)) (p : Pass K P)
      → PassOk start room p
      → PassOk start room (start_key dec clock hs p).1
  unfolding start_key
  start_key-PassOk hs p k = ground arith

  keys-start_key :
      (hs : List (P × Holder)) (p : Pass K P)
      → (start_key dec clock hs p).1.keys_to_fetch ≡ p.keys_to_fetch
  unfolding start_key
  keys-start_key hs p = ground arith

  finish_key-PassOk :
      (key : K) (hs : List (P × Holder)) (p : Pass K P)
      → PassOk start room p
      → PassOk start room (finish_key dec clock key hs p)
  unfolding finish_key
  finish_key-PassOk key hs p k = ground (
    arith,
    length-insert-le dec key none p.keys_to_fetch,
    peer_requests-insert-none dec key p.keys_to_fetch,
  )

  finish_key-other :
      (key : K) (hs : List (P × Holder)) (p : Pass K P) (j : K)
      → j ≢ key
      → lookup dec j p.keys_to_fetch ≡ none
      → lookup dec j (finish_key dec clock key hs p).keys_to_fetch ≡ none
  unfolding finish_key
  finish_key-other key hs p j e a =
      ground (arith, lookup-insert_ne dec j key none p.keys_to_fetch e)

  visit_key-ok :
      (no_more : Bool) (key : K) (hs : List (P × Holder)) (p : Pass K P)
      → All (λ x. HolderOk x.1) hs
      → PassOk start room p
      → lookup dec key p.keys_to_fetch ≡ none
      → All (λ x. HolderOk x.1) (visit_key dec clock room no_more key hs p).0
        × PassOk start room (visit_key dec clock room no_more key hs p).1
  unfolding visit_key
  visit_key-ok no_more key hs p v k a =
      let (ongoing, p₁) = start_key dec clock hs p in
      let done =
        visit_holders-ok no_more key ongoing hs p₁ v (start_key-PassOk hs p k)
          (λ _. ap (lookup dec key) (keys-start_key hs p) ∙ a) in
      (
        done.0,
        finish_key-PassOk key (visit_holders dec clock room no_more key ongoing hs p₁).0
            (visit_holders dec clock room no_more key ongoing hs p₁).1 done.1,
      )

  visit_key-other :
      (no_more : Bool) (key : K) (hs : List (P × Holder)) (p : Pass K P) (j : K)
      → j ≢ key
      → lookup dec j p.keys_to_fetch ≡ none
      → lookup dec j (visit_key dec clock room no_more key hs p).1.keys_to_fetch ≡ none
  unfolding visit_key
  visit_key-other no_more key hs p j e a =
      let (ongoing, p₁) = start_key dec clock hs p in
      finish_key-other key (visit_holders dec clock room no_more key ongoing hs p₁).0
        (visit_holders dec clock room no_more key ongoing hs p₁).1 j e
        (visit_holders-other no_more key ongoing hs p₁ j e
          (ap (lookup dec j) (keys-start_key hs p) ∙ a))

  -- The keys of the list are not among the keys to fetch.
  abbrev AllAbsent : List (K × List (P × Holder)) → Pass K P → Type 0
  AllAbsent m p = All (λ e. lookup dec e.0 p.keys_to_fetch ≡ none) m

  visit_key-absent :
      (no_more : Bool) (key : K) (hs : List (P × Holder)) (m : List (K × List (P × Holder)))
      (p : Pass K P)
      → IsFresh key m
      → AllAbsent m p
      → AllAbsent m (visit_key dec clock room no_more key hs p).1
  visit_key-absent no_more key hs [] p f a = tt
  visit_key-absent no_more key hs ((j, js) ∷ m) p f a = (
    visit_key-other no_more key hs p j (λ q. f.0 (sym q)) a.0,
    visit_key-absent no_more key hs m p f.1 a.1,
  )

  pub visit_keys-ok :
      (no_more : Bool) (m : List (K × List (P × Holder))) (p : Pass K P)
      → IsDistinct m
      → All HoldersOk m
      → AllAbsent m p
      → PassOk start room p
      → All HoldersOk (visit_keys dec clock room no_more m p).0
        × PassOk start room (visit_keys dec clock room no_more m p).1
  unfolding visit_keys
  visit_keys-ok no_more [] p d v a k = (tt, k)
  visit_keys-ok no_more ((key, hs) ∷ m) p d v a k =
      let one = visit_key-ok no_more key hs p v.0 k a.0 in
      let rest =
        visit_keys-ok no_more m (visit_key dec clock room no_more key hs p).1 d.1 v.1
          (visit_key-absent no_more key hs m p d.0 a.1) one.1 in
      ((one.0, rest.0), rest.1)

  IsFresh-visit_keys :
      (no_more : Bool) (m : List (K × List (P × Holder))) (p : Pass K P) (key : K)
      → IsFresh key m
      → IsFresh key (visit_keys dec clock room no_more m p).0
  unfolding visit_keys
  IsFresh-visit_keys no_more [] p key f = tt
  IsFresh-visit_keys no_more ((j, hs) ∷ m) p key f =
      (f.0, IsFresh-visit_keys no_more m (visit_key dec clock room no_more j hs p).1 key f.1)

  pub IsDistinct-visit_keys :
      (no_more : Bool) (m : List (K × List (P × Holder))) (p : Pass K P)
      → IsDistinct m
      → IsDistinct (visit_keys dec clock room no_more m p).0
  unfolding visit_keys
  IsDistinct-visit_keys no_more [] p d = tt
  IsDistinct-visit_keys no_more ((j, hs) ∷ m) p d =
      let p' = (visit_key dec clock room no_more j hs p).1 in
      (IsFresh-visit_keys no_more m p' j d.0, IsDistinct-visit_keys no_more m p' d.1)
