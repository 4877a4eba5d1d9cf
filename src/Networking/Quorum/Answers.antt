-- ===== src/Networking/Quorum/Answers.antt =====
-- The answer to a query of event.rs against the votes that were cast.
use safe_network.Base.{
  ◌≡◌, refl, arith, ℕ, List, [], ◌∷◌, Option, none, some, false, length, All, leb, if◌then◌else◌,
}
use safe_network.Base.Outcome.{Outcome, ok, err}
use safe_network.Base.Order.{eqb→eq, eqb_refl}
use safe_network.Base.SortedMap
use safe_network.Networking.RecordStore.{Kademlia, Record}
use safe_network.Networking.Quorum.{
  sender_of, Peers, PeerRecord, Copies, GetRecordResultMap, GetError, record_not_found, content_of,
  peer_list, add_copy, query_result, accumulate_get_record_ok, close_group_majority,
}
use safe_network.Networking.Quorum.Votes.{votes, peers_of, add_peer_lem, lookup-add_copy}

-- What a query is answered with when `found` has some votes at some step.
unfoldable pub verdict :
    {k : Kademlia} → Record k → ℕ → ℕ → Option (Outcome (GetError k) (Record k))
verdict found vote_count count =
    if leb 5 vote_count
    then some (ok found)
    else (if leb 8 count then some (err record_not_found) else none)

module _ {p : Peers} {k : Kademlia} where
  abbrev HasName : p.XorName × Copies p k → Type 0
  HasName e = p.from_content e.1.copy.value ≡ e.0

  -- A map stands for the answers so far: under each content, the set of its voters.
  pub record Represents (m : GetRecordResultMap p k) (answers : List (PeerRecord p k))
      : Type 0 where
    pub sorted : SortedMap.IsSorted p.name_ord m
    pub voters :
        (name : p.XorName) → peers_of (SortedMap.lookup p.name_ord name m) ≡ votes name answers
    pub named : All HasName m

  peer_list-votes :
      (r : PeerRecord p k) (m : GetRecordResultMap p k) (earlier : List (PeerRecord p k))
      → Represents m earlier
      → peer_list r m ≡ votes (content_of r) (r ∷ earlier)
  unfolding votes peer_list
  peer_list-votes r m earlier rep = ground (
    arith,
    eqb_refl p.name_ord (content_of r),
    rep.voters (content_of r),
    add_peer_lem (sender_of r) (SortedMap.lookup p.name_ord (content_of r) m),
  )

  add_copy-IsSorted :
      (r : PeerRecord p k) (m : GetRecordResultMap p k)
      → SortedMap.IsSorted p.name_ord m
      → SortedMap.IsSorted p.name_ord (add_copy r m)
  unfolding add_copy
  add_copy-IsSorted r m s =
      SortedMap.insert-IsSorted p.name_ord _ _ _ (SortedMap.remove-IsSorted p.name_ord _ _ s)

  add_copy-named :
      (r : PeerRecord p k) (m : GetRecordResultMap p k) → All HasName m → All HasName (add_copy r m)
  unfolding add_copy content_of
  add_copy-named r m a =
      SortedMap.All-insert p.name_ord HasName _ _ _ refl
        (SortedMap.All-remove p.name_ord HasName _ _ a)

  pub add_copy-Represents :
      (r : PeerRecord p k) (m : GetRecordResultMap p k) (earlier : List (PeerRecord p k))
      → Represents m earlier
      → Represents (add_copy r m) (r ∷ earlier)
  unfolding votes
  add_copy-Represents r m earlier rep = record {
    sorted = add_copy-IsSorted r m rep.sorted;
    voters = λ name. ground (
      arith,
      lookup-add_copy name r m rep.sorted,
      peer_list-votes r m earlier rep,
      rep.voters name,
      eqb→eq p.name_ord name (content_of r),
    );
    named = add_copy-named r m rep.named;
  }

  pub nothing-Represents : Represents [] []
  unfolding votes SortedMap.lookup
  nothing-Represents = record { sorted = tt; voters = λ name. refl; named = tt }

  -- If a map represents the earlier answers, as their sets of voters by content, then the answer
  -- to a new copy is the verdict on the number of distinct voters for its content, and the new
  -- map represents all the answers.
  pub accumulate-Represents :
      (r : PeerRecord p k) (count : ℕ) (m : GetRecordResultMap p k)
      (earlier : List (PeerRecord p k))
      → Represents m earlier
      → ((accumulate_get_record_ok r count m).0
          ≡ verdict r.found (length (votes (content_of r) (r ∷ earlier))) count)
        × Represents (accumulate_get_record_ok r count m).1 (r ∷ earlier)
  unfolding accumulate_get_record_ok verdict query_result close_group_majority
  accumulate-Represents r count m earlier rep =
      (rw (peer_list-votes r m earlier rep) refl, add_copy-Represents r m earlier rep)

  -- No query is kept for more copies at the eighth step.
  pub waits_early :
      (r : PeerRecord p k) (count : ℕ) (m : GetRecordResultMap p k)
      → (accumulate_get_record_ok r count m).0 ≡ none
      → leb 8 count ≡ false
  unfolding accumulate_get_record_ok query_result
  waits_early r count m h = ground arith
