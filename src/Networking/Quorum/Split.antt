-- ===== src/Networking/Quorum/Split.antt =====
-- `try_update_self_for_split_record` of event.rs: which of the copies of a split record wins.
use mathlib.Core.List.{Memᴰ}
use safe_network.Base.{
  ltb→lt, Bool-cases, inr, inl, ◌⊎◌, ◌≡◌, ◌≢◌, refl, arith, ℕ, ◌≤◌, ◌<◌, [], ◌∷◌, none, some, true,
  false, length, All, ltb, if◌then◌else◌, Ordering, ◌==◌,
}
use safe_network.Base.Order.{lt→neqb}
use safe_network.Base.SortedSet
use safe_network.Base.SortedMap
use safe_network.Networking.RecordStore.{Kademlia}
use safe_network.Networking.Quorum.{
  Peers, Copies, GetRecordResultMap, count_votes, highest_records, unless_held,
  try_update_self_for_split_record,
}
use safe_network.Networking.Quorum.Leads.{
  vote_count, has, Leads, count_votes-cases, highest_records-Leads, highest_records-counted,
  highest_records-has,
}

module _ {p : Peers} {k : Kademlia} where
  -- The copies of a content that win a split: none has more votes, and of those with as many none
  -- has a lower name.
  pub record Winner (m : GetRecordResultMap p k) : Type 0 where
    pub name : p.XorName
    pub copies : Copies p k
    pub member : Memᴰ (name, copies) m
    pub ahead :
        All
          (λ e.
            (vote_count e < length copies.peers)
            ⊎ ((vote_count e ≡ length copies.peers) × (p.name_ord.cmp e.0 name ≢ Ordering.lt)))
          m

  All-Memᴰ :
      (m l : GetRecordResultMap p k)
      → ((e : p.XorName × Copies p k) → Memᴰ e m → Memᴰ e l)
      → All (λ e. Memᴰ e l) m
  All-Memᴰ [] l f = tt
  All-Memᴰ (e ∷ m) l f = (f e (Memᴰ.head refl), All-Memᴰ m l (λ x h. f x (Memᴰ.tail h)))

  not_lower :
      (name key : p.XorName) (copies : Copies p k) (rest : GetRecordResultMap p k)
      → SortedMap.IsSorted p.name_ord ((name, copies) ∷ rest)
      → has key ((name, copies) ∷ rest) ≡ true
      → p.name_ord.cmp key name ≢ Ordering.lt
  unfolding SortedMap.lookup
  not_lower name key copies rest s h l = ground (
    arith,
    lt→neqb p.name_ord key name l,
    SortedMap.lookup-Above p.name_ord key rest
        (SortedMap.Above-trans p.name_ord key name rest l s.0),
  )

  insert-nonempty :
      (name : p.XorName) (copies : Copies p k) (m : GetRecordResultMap p k)
      → ltb 0 (length (SortedMap.insert p.name_ord name copies m)) ≡ true
  unfolding SortedMap.insert
  insert-nonempty name copies [] = ground arith
  insert-nonempty name copies (e ∷ m) = ground arith

  count_votes-nonempty :
      (e : p.XorName × Copies p k) (acc : ℕ × GetRecordResultMap p k)
      → (acc.0 ≡ 0) ⊎ (ltb 0 (length acc.1) ≡ true)
      → ltb 0 (length (count_votes e.0 e.1 acc).1) ≡ true
  count_votes-nonempty e acc h = elim (count_votes-cases e acc) [
    | inl q ↦ rw q (ground arith)
    | inr (inl (t, q)) ↦ rw q (insert-nonempty e.0 e.1 acc.1)
    | inr (inr (q, t)) ↦
        rw q (elim h [ inl z ↦ absurd (omega (arith, z, t)) | inr some_left ↦ some_left ])
  ]

  highest_records-nonempty :
      (m : GetRecordResultMap p k) (acc : ℕ × GetRecordResultMap p k)
      → ltb 0 (length acc.1) ≡ true
      → ltb 0 (length (highest_records m acc).1) ≡ true
  unfolding highest_records
  highest_records-nonempty [] acc h = h
  highest_records-nonempty (e ∷ m) acc h =
      highest_records-nonempty m (count_votes e.0 e.1 acc) (count_votes-nonempty e acc (inr h))

  All-both :
      {Q R S : p.XorName × Copies p k → Type 0}
      → ((e : p.XorName × Copies p k) → Q e → R e → S e)
      → (m : GetRecordResultMap p k) → All Q m
      → All R m
      → All S m
  All-both f [] a b = tt
  All-both f (e ∷ m) a b = (f e a.0 b.0, All-both f m a.1 b.1)

  highest_records-Winner :
      (m : GetRecordResultMap p k) (acc : ℕ × GetRecordResultMap p k)
      → Leads (λ e. Memᴰ e m) acc
      → All (λ e. vote_count e ≤ acc.0) m
      → All (λ e. vote_count e ≡ acc.0 → has e.0 acc.1 ≡ true) m
      → ltb 0 (length acc.1) ≡ true
      → (w : Winner m) × (unless_held acc.1 ≡ (
          if SortedSet.contains p.peer_ord p.self_peer_id w.copies.peers
          then none
          else some w.copies.copy))
  unfolding unless_held
  highest_records-Winner m (highest, []) l counted held h = absurd (ground arith)
  highest_records-Winner m (highest, (name, copies) ∷ rest) l counted held h =
      let votes_are : length copies.peers ≡ highest = (l.counts highest refl).0 in
      let behind : (e : p.XorName × Copies p k)
          → vote_count e ≤ highest
          → (vote_count e ≡ highest → has e.0 ((name, copies) ∷ rest) ≡ true)
          → (vote_count e < length copies.peers)
            ⊎ ((vote_count e ≡ length copies.peers) × (p.name_ord.cmp e.0 name ≢ Ordering.lt)) =
        λ e c has_key. elim (Bool-cases (ltb (vote_count e) highest)) [
          | inl less ↦ inl (omega (arith, votes_are, ltb→lt (vote_count e) highest less))
          | inr same ↦
              let level : vote_count e ≡ highest = ground (arith, c, same) in
              inr (
                omega (arith, votes_are, level),
                not_lower name e.0 copies rest l.sorted (has_key level),
              )
        ] in
      (
        record {
          name = name;
          copies = copies;
          member = l.from.0;
          ahead = All-both behind m counted held;
        },
        refl,
      )

  -- A split, of two or more copies in whatever order, has a winner among its entries, with the
  -- most votes and the lowest name of those, which is chosen unless the node is among its holders.
  pub split-Winner :
      (e f : p.XorName × Copies p k) (m : GetRecordResultMap p k)
      → (w : Winner (e ∷ f ∷ m)) × (try_update_self_for_split_record (e ∷ f ∷ m) ≡ (
          if SortedSet.contains p.peer_ord p.self_peer_id w.copies.peers
          then none
          else some w.copies.copy))
  unfolding try_update_self_for_split_record highest_records
  split-Winner e f m =
      let all = e ∷ f ∷ m in
      let start : ℕ × GetRecordResultMap p k = (0, []) in
      let nothing : Leads (λ e. Memᴰ e all) start = record {
        sorted = tt;
        from = tt;
        counts = λ n h. tt;
      } in
      let found =
        highest_records-Winner all (highest_records all start)
          (highest_records-Leads (λ e. Memᴰ e all) all start (All-Memᴰ all all (λ x h. h)) nothing)
          (highest_records-counted all start) (highest_records-has all start)
          (highest_records-nonempty (f ∷ m) (count_votes e.0 e.1 start)
            (count_votes-nonempty e start (inl refl))) in
      let split : length all == 1 ≡ false = ground arith in (found.0, rw split found.1)
