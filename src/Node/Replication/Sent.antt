-- ===== src/Node/Replication/Sent.antt =====
-- What replication.rs sends: each record's key to its target, in messages that are small enough.
use mathlib.Core.List.{append-nil, append_assoc}
use safe_network.Base.{
  ltb→lt, ℕ, zero, suc, ◌≤◌, ◌≡◌, refl, sym, subst, ◌∙◌, ap, arith, List, [], ◌∷◌, ◌++◌, Option,
  none, some, Bool, true, false, length, filter, All, ltb, if◌then◌else◌, map, Bool-cases, inl, inr,
  length-take-le, All-append,
}
use safe_network.Base.Order.{Ord, eqb, eqb→eq, lt→neqb}
use safe_network.Base.Outcome.{Outcome, ok, first_ok, ◌>>=◌}
use safe_network.Base.SortBy.{drop, take-drop, length-drop}
use safe_network.Base.SortedMap
use safe_network.Base.SortedMap.{insert, lookup}
use safe_network.Networking.Peers.{PeersError}
use safe_network.Networking.Driver.Peering.{concat}
use safe_network.Node.Replication.{
  target_of, keys_at, add_key, assign_keys, split_keys, replicate_messages, try_trigger_replication,
}

module _ {A : Type 0} where
  -- The messages carry the keys, in order.
  split_whole : (turns : ℕ) (keys : List A) → concat (split_keys turns keys) ≡ keys
  unfolding split_keys concat
  split_whole zero keys = append-nil keys
  split_whole (suc turns) keys = elim (Bool-cases (ltb 500 (length keys))) [
    | inl many ↦ rw (many, split_whole turns (drop 500 keys)) (take-drop 500 keys)
    | inr few ↦ rw few (append-nil keys)
  ]

  split_small :
      (turns : ℕ) (keys : List A)
      → length keys ≤ turns
      → All (λ batch. length batch ≤ 500) (split_keys turns keys)
  unfolding split_keys
  split_small zero keys h = (omega (arith, h), tt)
  split_small (suc turns) keys h = elim (Bool-cases (ltb 500 (length keys))) [
    | inl many ↦ rw many (
      length-take-le 500 keys,
      split_small turns (drop 500 keys)
          (omega (arith, length-drop 500 keys, h, ltb→lt 500 (length keys) many)),
    )
    | inr few ↦ rw few (ground arith, tt)
  ]

filter_step {ℓ} :
    {A : Type ℓ} (b : Bool) (x : A) (xs ys : List A)
    → (xs ++ (if b then x ∷ [] else [])) ++ ys ≡ xs ++ (if b then x ∷ ys else ys)
filter_step true x xs ys = append_assoc xs (x ∷ []) ys
filter_step false x xs ys = append_assoc xs [] ys

module _ {P : Type 0} (peers : Ord P) where
  module _ {A : Type 0} where
    -- The keys that the messages carry to a peer.
    unfoldable pub keys_sent_to : P → List (P × List A) → List A
    keys_sent_to p [] = []
    keys_sent_to p ((peer, keys) ∷ messages) =
        let rest = keys_sent_to p messages in if eqb peers p peer then keys ++ rest else rest

    sent-append :
        (p : P) (ms ns : List (P × List A))
        → keys_sent_to p (ms ++ ns) ≡ keys_sent_to p ms ++ keys_sent_to p ns
    unfolding keys_sent_to
    sent-append p [] ns = refl
    sent-append p ((peer, keys) ∷ ms) ns = elim (Bool-cases (eqb peers p peer)) [
      | inl e ↦
          rw (e, sent-append p ms ns)
            (sym (append_assoc keys (keys_sent_to p ms) (keys_sent_to p ns)))
      | inr e ↦ rw (e, sent-append p ms ns) refl
    ]

    sent_batches :
        (p peer : P) (batches : List (List A))
        → keys_sent_to p (map (λ batch. (peer, batch)) batches)
          ≡ (if eqb peers p peer then concat batches else [])
    unfolding keys_sent_to concat
    sent_batches p peer [] = ground arith
    sent_batches p peer (b ∷ batches) = elim (Bool-cases (eqb peers p peer)) [
      | inl e ↦ rw (e, sent_batches p peer batches, e) refl
      | inr e ↦ rw (e, sent_batches p peer batches, e) refl
    ]

    messages-Above :
        (p : P) (m : List (P × List A))
        → All (SortedMap.Above peers p) m
        → keys_sent_to p (replicate_messages m) ≡ []
    unfolding replicate_messages keys_sent_to
    messages-Above p [] a = refl
    messages-Above p ((peer, keys) ∷ m) a =
        sent-append p (map (λ batch. (peer, batch)) (split_keys (length keys) keys))
          (replicate_messages m)
        ∙ rw (sent_batches p peer (split_keys (length keys) keys), lt→neqb peers p peer a.0)
            (messages-Above p m a.1)

    at_first :
        (p peer : P) (keys : List A) (m : List (P × List A))
        → eqb peers p peer ≡ true
        → keys_at peers p ((peer, keys) ∷ m) ≡ keys
    unfolding keys_at lookup
    at_first p peer keys m h = rw (h, keys_at) refl

    at_later :
        (p peer : P) (keys : List A) (m : List (P × List A))
        → eqb peers p peer ≡ false
        → keys_at peers p ((peer, keys) ∷ m) ≡ keys_at peers p m
    unfolding keys_at lookup
    at_later p peer keys m h = rw (h, keys_at) refl

    -- The messages carry to each peer the keys that the map has for it.
    messages_keys :
        (p : P) (m : List (P × List A))
        → SortedMap.IsSorted peers m
        → keys_sent_to p (replicate_messages m) ≡ keys_at peers p m
    unfolding replicate_messages
    messages_keys p [] s = unfold keys_sent_to keys_at lookup in refl
    messages_keys p ((peer, keys) ∷ m) s =
        sent-append p (map (λ batch. (peer, batch)) (split_keys (length keys) keys))
          (replicate_messages m)
        ∙ elim (Bool-cases (eqb peers p peer)) [
          | inl e ↦
              rw
                (
                  sent_batches p peer (split_keys (length keys) keys),
                  at_first p peer keys m e,
                  e,
                  split_whole (length keys) keys,
                  eqb→eq peers p peer e,
                  messages-Above peer m s.0,
                )
                (append-nil keys)
          | inr e ↦
              rw (sent_batches p peer (split_keys (length keys) keys), at_later p peer keys m e, e)
                (messages_keys p m s.1)
        ]

    keys_at-insert :
        (p target : P) (keys : List A) (m : List (P × List A))
        → keys_at peers p (insert peers target keys m)
          ≡ (if eqb peers p target then keys else keys_at peers p m)
    unfolding keys_at
    keys_at-insert p target keys m = ground (arith, SortedMap.lookup-insert peers p target keys m)

  module _ {A : Type 0} (distance : A → P → ℕ) (peer_id : P) (is_removal : Bool)
      (all_peers : List P) where
    -- Whether a record's key is for a peer.
    abbrev pub is_target : P → Outcome PeersError (Option P) → Bool
    is_target p (ok (some q)) = eqb peers p q
    is_target p _ = false

    abbrev pub is_for : P → A → Bool
    is_for p key = is_target p (target_of peers distance peer_id is_removal all_peers key)

    add_key-IsSorted :
        (target : Option P) (key : A) (m : List (P × List A))
        → SortedMap.IsSorted peers m
        → SortedMap.IsSorted peers (add_key peers distance target key m)
    unfolding add_key
    add_key-IsSorted none key m s = s
    add_key-IsSorted (some q) key m s = SortedMap.insert-IsSorted peers q _ m s

    add_key_keys :
        (p : P) (target : Option P) (key : A) (m : List (P × List A))
        → keys_at peers p (add_key peers distance target key m)
          ≡ keys_at peers p m ++ (if is_target p (ok target) then key ∷ [] else [])
    unfolding add_key
    add_key_keys p none key m = sym (append-nil (keys_at peers p m))
    add_key_keys p (some q) key m =
        keys_at-insert p q (keys_at peers q m ++ key ∷ []) m ∙ elim (Bool-cases (eqb peers p q)) [
          | inl e ↦ rw (e, eqb→eq peers p q e) refl
          | inr e ↦ rw e (sym (append-nil (keys_at peers p m)))
        ]

    assign_keys_lem :
        (keys : List A) (m m' : List (P × List A))
        → assign_keys peers distance peer_id is_removal all_peers keys m ≡ ok m'
        → SortedMap.IsSorted peers m
        → SortedMap.IsSorted peers m'
          × ((p : P) → keys_at peers p m' ≡ keys_at peers p m ++ filter (is_for p) keys)
    unfolding assign_keys
    assign_keys_lem [] m m' h s =
        let e : m ≡ m' = ground (arith, h) in
        (
          subst (SortedMap.IsSorted peers) e s,
          λ p.
              subst (λ l. keys_at peers p l ≡ keys_at peers p m ++ []) e
                (sym (append-nil (keys_at peers p m))),
        )
    assign_keys_lem (key ∷ keys) m m' h s =
        let (target, e, rest) =
          first_ok (target_of peers distance peer_id is_removal all_peers key) _ h in
        let (sorted, at) =
          assign_keys_lem keys (add_key peers distance target key m) m' rest
            (add_key-IsSorted target key m s) in
        (
          sorted,
          λ p.
              at p
              ∙ ap (λ l. l ++ filter (is_for p) keys) (add_key_keys p target key m)
              ∙ filter_step (is_target p (ok target)) key (keys_at peers p m)
                  (filter (is_for p) keys)
              ∙ ap
                  (λ o.
                    keys_at peers p m
                    ++ (if is_target p o
                        then key ∷ filter (is_for p) keys
                        else filter (is_for p) keys))
                  (sym e),
        )

  All-batches :
      {A : Type 0} (peer : P) (batches : List (List A))
      → All (λ batch. length batch ≤ 500) batches
      → All (λ (x : P × List A). length x.1 ≤ 500) (map (λ batch. (peer, batch)) batches)
  All-batches peer [] h = tt
  All-batches peer (b ∷ batches) h = (h.0, All-batches peer batches h.1)

  replicate_small :
      {A : Type 0} (m : List (P × List A))
      → All (λ (x : P × List A). length x.1 ≤ 500) (replicate_messages m)
  unfolding replicate_messages
  replicate_small [] = tt
  replicate_small {A = A} ((peer, keys) ∷ m) =
      All-append (λ (x : P × List A). length x.1 ≤ 500) _ _
        (All-batches peer (split_keys (length keys) keys)
          (split_small (length keys) keys (omega arith)))
        (replicate_small m)

  -- The peers that are considered: a peer that left is added to those that are left.
  abbrev pub considered : P → Bool → List P → List P
  considered peer_id is_removal all_peers =
      if is_removal then all_peers ++ peer_id ∷ [] else all_peers

  -- With enough peers, if the replication succeeds, each peer is sent the keys of exactly the
  -- records that it is the target of, in order, and no message has more than 500 keys.
  pub try_trigger_replication_lem :
      {A : Type 0} (distance : A → P → ℕ) (k_value : ℕ) (all_peers : List P) (all_records : List A)
      (peer_id : P) (is_removal : Bool) (messages : List (P × List A)) (p : P)
      → k_value ≤ length all_peers
      → try_trigger_replication peers distance k_value all_peers all_records peer_id is_removal
        ≡ ok messages
      → (keys_sent_to p messages
          ≡ filter
              (is_for distance peer_id is_removal (considered peer_id is_removal all_peers) p)
              all_records)
        × All (λ (m : P × List A). length m.1 ≤ 500) messages
  unfolding try_trigger_replication keys_at lookup
  try_trigger_replication_lem distance k_value all_peers all_records peer_id is_removal messages p
        enough h =
      let peers_now = considered peer_id is_removal all_peers in
      let done : (assign_keys peers distance peer_id is_removal peers_now all_records [] >>= λ m.
      ok (replicate_messages m))
          ≡ ok messages =
        ground (arith, h, enough) in
      let (m, assigned, sent) =
        first_ok (assign_keys peers distance peer_id is_removal peers_now all_records []) _ done in
      let (sorted, at) =
        assign_keys_lem distance peer_id is_removal peers_now all_records [] m assigned tt in
      let e : replicate_messages m ≡ messages = ground (arith, sent) in
      (
        sym (ap (keys_sent_to p) e) ∙ messages_keys p m sorted ∙ at p,
        subst (All (λ x. length x.1 ≤ 500)) e (replicate_small m),
      )
