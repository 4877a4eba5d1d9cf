-- ===== src/Networking/Driver/Tests.antt =====
-- The theorems on the counting of copies and on the swarm driver, where peers, keys and identifiers are
-- numbers.
use safe_network.Base.{
  ℕ, ◌≤◌, ◌≡◌, refl, List, [], ◌∷◌, some, true, false, any, leb, length, inl, inr, ◌⊎◌,
  if◌then◌else◌,
}
use safe_network.Base.Assoc
use safe_network.Base.SortedSet
use safe_network.Networking.Samples.{
  kademlia, kademlia-IsSymmetric, keep_order-IsShuffle, full_store, full_store-WellFormed, near,
  five_peers, net, env_of_net, copy_of, waiting_driver,
}
use safe_network.Networking.Quorum.{
  record_not_found, PeerRecord, Copies, GetRecordResultMap, accumulate_get_record_ok, content_of,
  add_copy,
}
use safe_network.Networking.Quorum.Votes.{votes}
use safe_network.Networking.Quorum.Answers.{
  Represents, verdict, nothing-Represents, add_copy-Represents, accumulate-Represents,
}
use safe_network.Networking.Quorum.Split.{Winner}
use safe_network.Networking.RecordStore.{put_verified}
use safe_network.Networking.Driver.Splits.{after_try, AnswersAndStores, settle_get_record-Winner}
use safe_network.Networking.Driver.{err, Record, GetError, Outcome, Env, run_on}
use safe_network.Networking.Driver.Commands.{SwarmCmd, put_local_record, handle_cmd}
use safe_network.Networking.Driver.Events.{SwarmEvent, connection_established, new_driver, run}
use safe_network.Networking.Driver.Replies.{
  Settles, record_found_lem, answered_once, copies_arrive, replies,
}
use safe_network.Networking.Driver.Invariant.{IsSound, has_panicked}
use safe_network.Networking.Driver.Invariant.Commands.{handle_cmd-IsSound}
use safe_network.Networking.Driver.Invariant.Events.{run-IsSound, new_driver-IsSound}

abbrev one_copy : GetRecordResultMap five_peers kademlia
one_copy = add_copy (copy_of 1 9) []

one_copy-Represents : Represents one_copy (copy_of 1 9 ∷ [])
one_copy-Represents = add_copy-Represents (copy_of 1 9) [] [] nothing-Represents

accumulate-Represents_example :
    ((accumulate_get_record_ok (copy_of 2 9) 2 one_copy).0
      ≡ verdict
          (copy_of 2 9).found
          (length (votes (content_of (copy_of 2 9)) (copy_of 2 9 ∷ copy_of 1 9 ∷ [])))
          2)
    × Represents
        (accumulate_get_record_ok (copy_of 2 9) 2 one_copy).1
        (copy_of 2 9 ∷ copy_of 1 9 ∷ [])
accumulate-Represents_example =
    accumulate-Represents (copy_of 2 9) 2 one_copy (copy_of 1 9 ∷ []) one_copy-Represents

abbrev nine : ℕ × Copies five_peers kademlia
nine = (9, record { copy = (copy_of 1 9).found; peers = 1 ∷ [] })

abbrev four : ℕ × Copies five_peers kademlia
four = (4, record { copy = (copy_of 2 4).found; peers = 2 ∷ [] })

abbrev split_answer : Outcome (GetError kademlia) (Record kademlia)
split_answer = err record_not_found

settle_get_record-Winner_example :
    (w : Winner (nine ∷ four ∷ [])) × AnswersAndStores env_of_net 7 40 split_answer
      (nine ∷ four ∷ [])
      waiting_driver
      (if SortedSet.contains five_peers.peer_ord five_peers.self_peer_id w.copies.peers
        then (waiting_driver.store, [])
        else after_try waiting_driver.store (put_verified waiting_driver.store w.copies.copy))
settle_get_record-Winner_example =
    settle_get_record-Winner env_of_net 7 40 split_answer (nine ∷ four ∷ []) nine four []
      waiting_driver refl

query_waits : Assoc.lookup net.query_eq 7 waiting_driver.pending_get_record ≡ some (40, [])
query_waits = unfold Assoc.lookup in refl

record_found_lem_example : Settles env_of_net 7 (copy_of 1 9) 1 waiting_driver 40 []
record_found_lem_example =
    record_found_lem env_of_net 7 (copy_of 1 9) 1 waiting_driver 40 [] [] query_waits
      nothing-Represents

abbrev two_copies : List (Env net × (PeerRecord five_peers kademlia × ℕ))
two_copies = (env_of_net, (copy_of 1 9, 1)) ∷ (env_of_net, (copy_of 2 4, 8)) ∷ []

answered_once_example :
    (replies (run_on waiting_driver (copies_arrive 7 two_copies)).effects ≤ 1)
    × ((if any (λ t. leb 8 t.1.1) two_copies then 1 else 0)
        ≤ replies (run_on waiting_driver (copies_arrive 7 two_copies)).effects)
answered_once_example = answered_once 7 two_copies waiting_driver 40 [] query_waits

fresh_driver-IsSound : IsSound (new_driver {n = net} full_store true false)
fresh_driver-IsSound = new_driver-IsSound full_store true false full_store-WellFormed

handle_cmd-IsSound_example :
    IsSound
      (run_on
        (new_driver full_store true false)
        (handle_cmd env_of_net (put_local_record near))).driver
    × (has_panicked
          (run_on
            (new_driver full_store true false)
            (handle_cmd env_of_net (put_local_record near))).result
        ≡ false)
handle_cmd-IsSound_example =
    handle_cmd-IsSound env_of_net (put_local_record near) (new_driver full_store true false)
      kademlia-IsSymmetric keep_order-IsShuffle fresh_driver-IsSound

abbrev some_turns : List (Env net × (SwarmEvent net ⊎ SwarmCmd net))
some_turns =
    (env_of_net, inr (put_local_record near))
    ∷ (env_of_net, inl (connection_established 3 true))
    ∷ []

run-IsSound_example :
    IsSound (run_on (new_driver full_store true false) (run (λ a b. false) true some_turns)).driver
run-IsSound_example =
    run-IsSound (λ a b. false) true some_turns full_store true false kademlia-IsSymmetric
      (keep_order-IsShuffle, (keep_order-IsShuffle, tt)) full_store-WellFormed
