-- ===== src/Networking/Quorum/Leads.antt =====
-- The loop of `try_update_self_for_split_record` of event.rs: what it keeps of the copies it has seen.
use native.Mathlib.Nat.{le_trans}
use safe_network.Base.{
  ◌∙◌, ap, sym, Bool-cases, inr, inl, ◌⊎◌, ◌≡◌, refl, arith, ℕ, ◌≤◌, ◌<◌, [], ◌∷◌, Bool, true,
  length, All, leb, ltb, is_some,
}
use safe_network.Base.Order.{eqb_refl}
use safe_network.Base.SortedMap
use safe_network.Networking.RecordStore.{Kademlia}
use safe_network.Networking.Quorum.{Peers, Copies, GetRecordResultMap, count_votes, highest_records}

module _ {p : Peers} {k : Kademlia} where
  abbrev pub vote_count : p.XorName × Copies p k → ℕ
  vote_count e = length e.1.peers

  abbrev pub has : p.XorName → GetRecordResultMap p k → Bool
  has name m = is_some (SortedMap.lookup p.name_ord name m)

  -- What the loop keeps of the entries `Q` it has seen.
  pub record Leads (Q : p.XorName × Copies p k → Type 0) (acc : ℕ × GetRecordResultMap p k)
      : Type 0 where
    pub sorted : SortedMap.IsSorted p.name_ord acc.1
    pub from : All Q acc.1
    pub counts : (n : ℕ) → acc.0 ≡ n → All (λ e. vote_count e ≡ n) acc.1

  count_votes-IsSorted :
      (e : p.XorName × Copies p k) (acc : ℕ × GetRecordResultMap p k)
      → SortedMap.IsSorted p.name_ord acc.1
      → SortedMap.IsSorted p.name_ord (count_votes e.0 e.1 acc).1
  unfolding count_votes
  count_votes-IsSorted e (highest, best) s =
      ground (arith, SortedMap.insert-IsSorted p.name_ord e.0 e.1 best s)

  count_votes-All :
      (Q : p.XorName × Copies p k → Type 0) (e : p.XorName × Copies p k)
      (acc : ℕ × GetRecordResultMap p k)
      → Q e
      → All Q acc.1
      → All Q (count_votes e.0 e.1 acc).1
  unfolding count_votes
  count_votes-All Q e (highest, best) q a =
      ground (arith, SortedMap.All-insert p.name_ord Q e.0 e.1 best q a)

  pub count_votes-cases :
      (e : p.XorName × Copies p k) (acc : ℕ × GetRecordResultMap p k)
      → (count_votes e.0 e.1 acc ≡ (vote_count e, e ∷ []))
        ⊎ ((acc.0 ≡ vote_count e)
            × (count_votes e.0 e.1 acc ≡ (vote_count e, SortedMap.insert p.name_ord e.0 e.1 acc.1)))
        ⊎ ((count_votes e.0 e.1 acc ≡ acc) × (vote_count e < acc.0))
  unfolding count_votes
  count_votes-cases e acc = elim (Bool-cases (ltb acc.0 (vote_count e))) [
    | inl above ↦ inl (rw above refl)
    | inr not_above ↦ elim (Bool-cases (leb acc.0 (vote_count e))) [
      | inl level ↦ inr (inl (ground arith, rw (not_above, level) refl))
      | inr below ↦ inr (inr (rw (not_above, below) refl, ground arith))
    ]
  ]

  count_votes-counts :
      (n : ℕ) (e : p.XorName × Copies p k) (acc : ℕ × GetRecordResultMap p k)
      → (acc.0 ≡ n → All (λ x. vote_count x ≡ n) acc.1)
      → (count_votes e.0 e.1 acc).0 ≡ n
      → All (λ x. vote_count x ≡ n) (count_votes e.0 e.1 acc).1
  count_votes-counts n e acc a h = elim (count_votes-cases e acc) [
    | inl q ↦ rw q (sym (ap (λ x. x.0) q) ∙ h, tt)
    | inr (inl (t, q)) ↦
        let len : vote_count e ≡ n = sym (ap (λ x. x.0) q) ∙ h in
        rw q
          (SortedMap.All-insert p.name_ord (λ x. vote_count x ≡ n) e.0 e.1 acc.1 len (a (t ∙ len)))
    | inr (inr (q, t)) ↦ rw q (a (sym (ap (λ x. x.0) q) ∙ h))
  ]

  count_votes-Leads :
      (Q : p.XorName × Copies p k → Type 0) (e : p.XorName × Copies p k)
      (acc : ℕ × GetRecordResultMap p k)
      → Q e
      → Leads Q acc
      → Leads Q (count_votes e.0 e.1 acc)
  count_votes-Leads Q e acc q l = record {
    sorted = count_votes-IsSorted e acc l.sorted;
    from = count_votes-All Q e acc q l.from;
    counts = λ n. count_votes-counts n e acc (l.counts n);
  }

  count_votes-le :
      (e : p.XorName × Copies p k) (acc : ℕ × GetRecordResultMap p k)
      → acc.0 ≤ (count_votes e.0 e.1 acc).0
  unfolding count_votes
  count_votes-le e (highest, best) = ground arith

  count_votes-counted :
      (e : p.XorName × Copies p k) (acc : ℕ × GetRecordResultMap p k)
      → vote_count e ≤ (count_votes e.0 e.1 acc).0
  unfolding count_votes
  count_votes-counted e (highest, best) = ground arith

  count_votes-has :
      (e : p.XorName × Copies p k) (acc : ℕ × GetRecordResultMap p k)
      → vote_count e ≡ (count_votes e.0 e.1 acc).0
      → has e.0 (count_votes e.0 e.1 acc).1 ≡ true
  unfolding count_votes SortedMap.lookup
  count_votes-has e (highest, best) h =
      ground (arith, eqb_refl p.name_ord e.0, SortedMap.lookup-insert p.name_ord e.0 e.0 e.1 best)

  count_votes-keeps :
      (name : p.XorName) (e : p.XorName × Copies p k) (acc : ℕ × GetRecordResultMap p k)
      → acc.0 ≡ (count_votes e.0 e.1 acc).0
      → has name acc.1 ≡ true
      → has name (count_votes e.0 e.1 acc).1 ≡ true
  unfolding count_votes
  count_votes-keeps name e (highest, best) h g =
      ground (arith, SortedMap.lookup-insert p.name_ord name e.0 e.1 best)

  pub highest_records-Leads :
      (Q : p.XorName × Copies p k → Type 0) (m : GetRecordResultMap p k)
      (acc : ℕ × GetRecordResultMap p k)
      → All Q m
      → Leads Q acc
      → Leads Q (highest_records m acc)
  unfolding highest_records
  highest_records-Leads Q [] acc a l = l
  highest_records-Leads Q (e ∷ m) acc a l =
      highest_records-Leads Q m (count_votes e.0 e.1 acc) a.1 (count_votes-Leads Q e acc a.0 l)

  highest_records-le :
      (m : GetRecordResultMap p k) (acc : ℕ × GetRecordResultMap p k)
      → acc.0 ≤ (highest_records m acc).0
  unfolding highest_records
  highest_records-le [] acc = omega arith
  highest_records-le (e ∷ m) acc =
      le_trans (count_votes-le e acc) (highest_records-le m (count_votes e.0 e.1 acc))

  highest_records-keeps :
      (name : p.XorName) (m : GetRecordResultMap p k) (acc : ℕ × GetRecordResultMap p k)
      → acc.0 ≡ (highest_records m acc).0
      → has name acc.1 ≡ true
      → has name (highest_records m acc).1 ≡ true
  unfolding highest_records
  highest_records-keeps name [] acc h g = g
  highest_records-keeps name (e ∷ m) acc h g =
      let next = count_votes e.0 e.1 acc in
      let same : acc.0 ≡ next.0 =
        omega (arith, count_votes-le e acc, highest_records-le m next, h) in
      highest_records-keeps name m next (omega (arith, same, h))
        (count_votes-keeps name e acc same g)

  pub highest_records-counted :
      (m : GetRecordResultMap p k) (acc : ℕ × GetRecordResultMap p k)
      → All (λ e. vote_count e ≤ (highest_records m acc).0) m
  unfolding highest_records
  highest_records-counted [] acc = tt
  highest_records-counted (e ∷ m) acc = (
    le_trans (count_votes-counted e acc) (highest_records-le m (count_votes e.0 e.1 acc)),
    highest_records-counted m (count_votes e.0 e.1 acc),
  )

  pub highest_records-has :
      (m : GetRecordResultMap p k) (acc : ℕ × GetRecordResultMap p k)
      → All
          (λ e. vote_count e ≡ (highest_records m acc).0 → has e.0 (highest_records m acc).1 ≡ true)
          m
  unfolding highest_records
  highest_records-has [] acc = tt
  highest_records-has (e ∷ m) acc =
      let next = count_votes e.0 e.1 acc in
      (
        λ h.
            let top : next.0 ≡ (highest_records m next).0 =
              omega (arith, count_votes-counted e acc, highest_records-le m next, h) in
            highest_records-keeps e.0 m next top (count_votes-has e acc (omega (arith, top, h))),
        highest_records-has m next,
      )
