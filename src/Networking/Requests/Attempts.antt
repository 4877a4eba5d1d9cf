-- ===== src/Networking/Requests/Attempts.antt =====
-- What the attempts of a read and the retries of a put give.
use safe_network.Base.{
  ℕ, zero, suc, ◌+◌, ◌<◌, ◌≡◌, ◌∙◌, ap, refl, sym, subst, arith, Option, none, some, Bool, true,
  false, ◌==◌, test→holds, if◌then◌else◌, Bool-cases, inl, inr, ◌⊎◌,
}
use safe_network.Base.Outcome.{Outcome, ok, Outcome-cases, err, first_ok}
use safe_network.Networking.RecordStore.{Kademlia, Record}
use safe_network.Networking.Quorum.{GetError, record_not_found, record_not_enough_copies}
use safe_network.Networking.Requests.{
  NetworkError, is_target, judge, attempts, get_record_from_network, verify_put, put_record_once,
  is_unverified, retries, put_record_with_retries,
}

module _ {k : Kademlia} (same_record : Discrete (Record k)) where
  -- The network gave the record, by a majority or, to the last of some attempts, by a single copy.
  abbrev pub GaveAt :
      (ℕ → Outcome (NetworkError k) (Outcome (GetError k) (Record k))) → Record k → ℕ → ℕ → Type 0
  GaveAt ask r i total =
      (ask i ≡ ok (ok r)) ⊎ ((ask i ≡ ok (err (record_not_enough_copies r))) × (suc i ≡ total))

  judge_sound :
      (target : Option (Record k)) (is_last : Bool) (rest : Outcome (NetworkError k) (Record k))
      (answer : Outcome (GetError k) (Record k)) (r : Record k)
      → judge same_record target is_last rest answer ≡ ok r
      → ((is_target same_record target r ≡ true)
          × ((answer ≡ ok r) ⊎ ((answer ≡ err (record_not_enough_copies r)) × (is_last ≡ true))))
        ⊎ ((rest ≡ ok r) × (is_last ≡ false))
  unfolding judge
  judge_sound target is_last rest (ok returned) r h =
      elim (Bool-cases (is_target same_record target returned)) [
        | inl e ↦ let same : returned ≡ r = ground arith in inl (cc, inl (cc))
        | inr e ↦ inr (ground arith, ground arith)
      ]
  judge_sound target is_last rest (err (record_not_enough_copies returned)) r h =
      elim (Bool-cases (is_target same_record target returned)) [
        | inl e ↦ elim (Bool-cases is_last) [
          | inl l ↦ let same : returned ≡ r = ground arith in inl (cc, inr (cc, l))
          | inr l ↦ inr (ground arith, l)
        ]
        | inr e ↦ inr (ground arith, ground arith)
      ]
  judge_sound target is_last rest (err record_not_found) r h = inr (ground arith, ground arith)

  attempts_sound :
      (ask : ℕ → Outcome (NetworkError k) (Outcome (GetError k) (Record k)))
      (target : Option (Record k)) (total left i : ℕ) (r : Record k)
      → left + i ≡ total
      → attempts same_record ask target left i ≡ ok r
      → (is_target same_record target r ≡ true) × ((j : ℕ) × (j < total) × GaveAt ask r j total)
  unfolding attempts
  attempts_sound ask target total zero i r t h = cc
  attempts_sound ask target total (suc left) i r t h =
      let rest = attempts same_record ask target left (suc i) in
      let (answer, asked, judged) =
        first_ok (ask i) (λ a. judge same_record target (left == 0) rest a) h in
      elim (judge_sound target (left == 0) rest answer r judged) [
        | inl (fits, inl a) ↦ (fits, (i, omega (arith, t), inl (cc)))
        | inl (fits, inr (a, l)) ↦ (fits, (i, omega (arith, t), inr (cc, ground arith)))
        | inr (later, l) ↦ attempts_sound ask target total left (suc i) r (omega (arith, t)) later
      ]

  -- The record that is wanted, if one is.
  abbrev pub Matches : Option (Record k) → Record k → Type 0
  Matches none r = Unit
  Matches (some target) r = target ≡ r

  is_target-Matches :
      (target : Option (Record k)) (r : Record k)
      → is_target same_record target r ≡ true
      → Matches target r
  unfolding is_target
  is_target-Matches none r h = tt
  is_target-Matches (some t) r h = test→holds (same_record t r) h

  -- A read of a key that gives a record gives the target, if there is one, and a record that the
  -- network gave for that key at one of the attempts: as its answer, or, at the last attempt, as
  -- a single copy.
  pub get_record_from_network_sound :
      (ask : k.Key → ℕ → Outcome (NetworkError k) (Outcome (GetError k) (Record k))) (key : k.Key)
      (target : Option (Record k)) (re_attempt : Bool) (r : Record k)
      → get_record_from_network same_record ask key target re_attempt ≡ ok r
      → Matches target r
        × ((j : ℕ) × (j < (if re_attempt then 30 else 1))
            × GaveAt (ask key) r j (if re_attempt then 30 else 1))
  unfolding get_record_from_network
  get_record_from_network_sound ask key target true r h =
      let (fits, gave) = attempts_sound (ask key) target 30 30 0 r refl h in
      (is_target-Matches target r fits, gave)
  get_record_from_network_sound ask key target false r h =
      let (fits, gave) = attempts_sound (ask key) target 1 1 0 r refl h in
      (is_target-Matches target r fits, gave)

  verify_put_got :
      (ask : k.Key → ℕ → Outcome (NetworkError k) (Outcome (GetError k) (Record k))) (r : Record k)
      (u : Unit {0})
      → verify_put same_record ask r true ≡ ok u
      → (returned : Record k) × (get_record_from_network same_record ask r.key (some r) true
          ≡ ok returned)
  unfolding verify_put
  verify_put_got ask r u h =
      elim (Outcome-cases (get_record_from_network same_record ask r.key (some r) true)) [
        | inl (e, q) ↦ absurd (ground (arith, q))
        | inr (returned, q) ↦ (returned, q)
      ]

  put_once_sound :
      (command : Record k → Outcome (NetworkError k) (Outcome (NetworkError k) (Unit {0})))
      (ask : k.Key → ℕ → Outcome (NetworkError k) (Outcome (GetError k) (Record k))) (r : Record k)
      (u : Unit {0})
      → put_record_once same_record command ask r true ≡ ok u
      → (command r ≡ ok (ok u)) × ((j : ℕ) × (j < 30) × GaveAt (ask r.key) r j 30)
  unfolding put_record_once verify_put
  put_once_sound command ask r u h =
      let (response, sent, checked) = first_ok (command r) _ h in
      let (v, verified, answered) =
        first_ok (verify_put same_record ask r true) (λ passed. response) checked in
      let (returned, got) = verify_put_got ask r v verified in
      let (fits, gave) = get_record_from_network_sound ask r.key (some r) true returned got in
      (
        sent ∙ ap ok answered,
        subst (λ x. (j : ℕ) × (j < 30) × GaveAt (ask r.key) x j 30) (sym fits) gave,
      )

  retries_sound :
      (command : ℕ → Record k → Outcome (NetworkError k) (Outcome (NetworkError k) (Unit {0})))
      (ask : ℕ → k.Key → ℕ → Outcome (NetworkError k) (Outcome (GetError k) (Record k)))
      (r : Record k) (total left i : ℕ) (u : Unit {0})
      → left + i ≡ total
      → retries same_record command ask r left i ≡ ok u
      → (t : ℕ) × (t < total)
        × (command t r ≡ ok (ok u))
        × ((j : ℕ) × (j < 30) × GaveAt (ask t r.key) r j 30)
  unfolding retries
  retries_sound command ask r total zero i u t h = cc
  retries_sound command ask r total (suc left) i u t h =
      elim (Bool-cases (is_unverified (put_record_once same_record (command i) (ask i) r true))) [
        | inl again ↦
            retries_sound command ask r total left (suc i) u (omega (arith, t))
              (ground (arith, again))
        | inr settled ↦
            let (sent, gave) = put_once_sound (command i) (ask i) r u (ground (arith, settled)) in
            (i, omega (arith, t), sent, gave)
      ]

  -- A verified put that succeeds has sent its record in one of three tries, had it accepted, and
  -- read that record back under its key within thirty attempts.
  pub put_record_with_retries_sound :
      (command : ℕ → Record k → Outcome (NetworkError k) (Outcome (NetworkError k) (Unit {0})))
      (ask : ℕ → k.Key → ℕ → Outcome (NetworkError k) (Outcome (GetError k) (Record k)))
      (r : Record k) (u : Unit {0})
      → put_record_with_retries same_record command ask r ≡ ok u
      → (t : ℕ) × (t < 3)
        × (command t r ≡ ok (ok u))
        × ((j : ℕ) × (j < 30) × GaveAt (ask t r.key) r j 30)
  unfolding put_record_with_retries
  put_record_with_retries_sound command ask r u h = retries_sound command ask r 3 3 0 u refl h
