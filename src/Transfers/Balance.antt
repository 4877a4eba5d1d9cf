-- ===== src/Transfers/Balance.antt =====
-- The amounts of the inputs, outputs and fees of client_transfers/transfer.rs.
use safe_network.Base.{
  ◌≢◌, ℕ, ◌+◌, ◌-◌, ◌≡◌, ◌⊎◌, inl, inr, refl, List, [], ◌∷◌, ◌++◌, Option, none, some, Option-cases,
  arith, map,
}
use mathlib.Core.List.{flatten}
use safe_network.Base.Outcome.{Outcome, ok, err}
use safe_network.Transfers.{
  Dbcs, Error, Inputs, Parts, FeeOutput, Selection, gather, select_inputs, total_amount,
  builder_inputs, builder_parts, create_transfer, create_storage_payment_transfer,
}

-- The sum of amounts.
abbrev pub sum : List ℕ → ℕ
sum [] = 0
sum (n ∷ ns) = n + sum ns

module _ (c : Dbcs) where
  open c use {Dbc, DerivedKey, PublicAddress, DerivationIndex, Hash}

  -- The amounts of the DBCs that have one.
  abbrev pub funds : List (Dbc × DerivedKey) → ℕ
  funds [] = 0
  funds (x ∷ xs) = elim (c.token x.0) [ none ↦ funds xs | some t ↦ t + funds xs ]

  funds-append : (xs ys : List (Dbc × DerivedKey)) → funds (xs ++ ys) ≡ funds xs + funds ys
  funds-append [] ys = omega arith
  funds-append (x ∷ xs) ys = ground (arith, funds-append xs ys)

  -- Before the output is covered the change is what is missing; then it is the surplus.
  record Fits (output : ℕ) (s : Selection c) : Type 0 where
    pub counted : funds s.dbcs_to_spend ≡ s.total_input_amount
    pub balanced :
        (s.total_input_amount + s.change_amount ≡ output)
        ⊎ (s.total_input_amount ≡ output + s.change_amount)

  gather-Fits :
      (output : ℕ) (xs : List (Dbc × DerivedKey)) (s s' : Selection c)
      → funds s.dbcs_to_spend ≡ s.total_input_amount
      → s.total_input_amount + s.change_amount ≡ output
      → gather c xs s ≡ ok s'
      → Fits output s'
  unfolding gather
  gather-Fits output [] s s' f b h = record {
    counted = ground arith;
    balanced = inl (ground arith);
  }
  gather-Fits output ((x, key) ∷ xs) s s' f b h = elim (Option-cases (c.token x)) [
    | inl e ↦ gather-Fits output xs s s' f b (ground arith)
    | inr (t, e) ↦
        let grown : funds (s.dbcs_to_spend ++ (x, key) ∷ []) ≡ s.total_input_amount + t =
          ground (arith, funds-append s.dbcs_to_spend ((x, key) ∷ [])) in
        ground (
          arith,
          gather-Fits output xs
              (record {
                dbcs_to_spend = s.dbcs_to_spend ++ (x, key) ∷ [];
                total_input_amount = s.total_input_amount + t;
                change_amount = s.change_amount - t;
              })
              s',
        )
  ]

  abbrev pub start : ℕ → Selection c
  start output = record { dbcs_to_spend = []; total_input_amount = 0; change_amount = output }

  -- The selected inputs are worth the output and the change.
  pub select_inputs-balance :
      (available : List (Dbc × DerivedKey)) (output : ℕ) (spent : List (Dbc × DerivedKey))
      (change : ℕ)
      → select_inputs c available output ≡ ok (spent, change)
      → funds spent ≡ output + change
  unfolding select_inputs
  select_inputs-balance available output spent change h =
      selected (gather c available (start output)) refl
    where
      selected :
          (o : Outcome Error (Selection c))
          → gather c available (start output) ≡ o
          → funds spent ≡ output + change
      selected (err e) q = absurd (ground arith)
      selected (ok s) q =
          let fits = gather-Fits output available (start output) s refl (omega arith) q in
          ground (arith, fits.counted, fits.balanced)

  -- What the builder is given as inputs is worth what was selected.
  funds-builder_inputs :
      (xs : List (Dbc × DerivedKey)) → sum (map (λ i. i.0.1) (builder_inputs c xs)) ≡ funds xs
  unfolding builder_inputs
  funds-builder_inputs [] = refl
  funds-builder_inputs (x ∷ xs) = ground (arith, funds-builder_inputs xs)

  total_amount-none :
      (rs : List (ℕ × (PublicAddress × DerivationIndex))) (t : ℕ) → total_amount c none rs ≢ some t
  unfolding total_amount
  total_amount-none [] t h = cc
  total_amount-none (r ∷ rs) t h = total_amount-none rs t h

  total_amount-sum :
      (a : ℕ) (rs : List (ℕ × (PublicAddress × DerivationIndex))) (t : ℕ)
      → total_amount c (some a) rs ≡ some t
      → t ≡ a + sum (map (λ r. r.0) rs)
  unfolding total_amount
  total_amount-sum a [] t h = ground arith
  total_amount-sum a (r ∷ rs) t h =
      ground (arith, total_amount-none rs t, total_amount-sum (a + r.0) rs t)

  sum-append :
      (rs : List (ℕ × (PublicAddress × DerivationIndex)))
      (r : ℕ × (PublicAddress × DerivationIndex))
      → sum (map (λ r. r.0) (rs ++ r ∷ [])) ≡ sum (map (λ r. r.0) rs) + r.0
  sum-append [] r = omega arith
  sum-append (q ∷ rs) r = ground (arith, sum-append rs r)

  -- The amounts of a transaction's outputs and fee.
  abbrev pub paid_out : Parts c → ℕ
  paid_out p = sum (map (λ r. r.0) p.outputs) + (elim p.fee [ none ↦ 0 | some fee ↦ fee.token ])

  abbrev pub paid_in : Parts c → ℕ
  paid_in p = sum (map (λ i. i.0.1) p.inputs)

  outputs-sum :
      (sel : Inputs c) (index : DerivationIndex) (fee : Option (FeeOutput c))
      → sum (map (λ r. r.0) (builder_parts c sel fee index).outputs)
        ≡ sum (map (λ r. r.0) sel.recipients) + sel.change.0
  unfolding builder_parts
  outputs-sum sel index fee =
      ground (arith, sum-append sel.recipients (sel.change.0, (sel.change.1, index)))

  balanced :
      (sel : Inputs c) (fee : Option (FeeOutput c)) (index : DerivationIndex)
      → funds sel.dbcs_to_spend
        ≡ sum (map (λ r. r.0) sel.recipients)
          + sel.change.0
          + (elim fee [ none ↦ 0 | some f ↦ f.token ])
      → paid_in (builder_parts c sel fee index) ≡ paid_out (builder_parts c sel fee index)
  unfolding builder_parts
  balanced sel fee index h =
      ground (arith, outputs-sum sel index fee, funds-builder_inputs sel.dbcs_to_spend)

  -- If `create_transfer` reaches the transaction builder, what it gives to it balances: the
  -- amounts of the inputs sum to those of the outputs, the change included.
  pub create_transfer-balance :
      (available : List (Dbc × DerivedKey))
      (recipients : List (ℕ × (PublicAddress × DerivationIndex))) (change_to : PublicAddress)
      (index : DerivationIndex) (parts : Parts c)
      → create_transfer c available recipients change_to index ≡ ok parts
      → paid_in parts ≡ paid_out parts
  unfolding create_transfer
  create_transfer-balance available recipients change_to index parts h =
      elim (Option-cases (total_amount c (some 0) recipients)) [
        | inl e ↦ absurd (ground arith)
        | inr (output, e) ↦ selected output e (select_inputs c available output) refl
      ]
    where
      selected :
          (output : ℕ)
          → total_amount c (some 0) recipients ≡ some output
          → (o : Outcome Error (List (Dbc × DerivedKey) × ℕ)) → select_inputs c available output ≡ o
          → paid_in parts ≡ paid_out parts
      selected output e (err x) q = absurd (ground arith)
      selected output e (ok (spent, change)) q =
          let sel : Inputs c = record {
            dbcs_to_spend = spent;
            recipients = recipients;
            change = (change, change_to);
          } in
          let made : parts ≡ builder_parts c sel none index = ground arith in
          rw made (
            balanced sel none index (
              omega (
                arith,
                select_inputs-balance available output spent change q,
                total_amount-sum 0 recipients output e,
              )))

  -- If `create_storage_payment_transfer` reaches the transaction builder, what it gives to it
  -- balances: the amounts of the inputs sum to those of the fee and the change.
  pub create_storage_payment_transfer-balance :
      (available : List (Dbc × DerivedKey)) (change_to : PublicAddress) (payment : ℕ) (root : Hash)
      (index : DerivationIndex) (parts : Parts c)
      → create_storage_payment_transfer c available change_to payment root index ≡ ok parts
      → paid_in parts ≡ paid_out parts
  unfolding create_storage_payment_transfer
  create_storage_payment_transfer-balance available change_to payment root index parts h =
      selected (select_inputs c available payment) refl
    where
      selected :
          (o : Outcome Error (List (Dbc × DerivedKey) × ℕ))
          → select_inputs c available payment ≡ o
          → paid_in parts ≡ paid_out parts
      selected (err x) q = absurd (ground arith)
      selected (ok (spent, change)) q =
          let sel : Inputs c = record {
            dbcs_to_spend = spent;
            recipients = [];
            change = (change, change_to);
          } in
          let fee : FeeOutput c = record {
            id = c.hash (c.hash_slice root ++ flatten (map (λ x. c.id_bytes (c.id x.0)) spent));
            token = payment;
            root_hash = root;
          } in
          let made : parts ≡ builder_parts c sel (some fee) index = ground arith in
          rw made (
            balanced sel (some fee) index
              (omega (arith, select_inputs-balance available payment spent change q)))
