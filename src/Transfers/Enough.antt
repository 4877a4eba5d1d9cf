-- ===== src/Transfers/Enough.antt =====
-- The results of `select_inputs` of client_transfers/transfer.rs.
use safe_network.Base.{
  ℕ, ◌+◌, ◌-◌, ◌^◌, ◌≤◌, ◌<◌, ◌≡◌, ◌⊎◌, inl, inr, refl, List, [], ◌∷◌, ◌++◌, Option-cases, arith,
  Bool-cases, ltb,
}
use safe_network.Base.Outcome.{ok, err}
use safe_network.Transfers.{Dbcs, not_enough_balance, Selection, gather, select_inputs}
use safe_network.Transfers.Balance.{funds, start, select_inputs-balance}

module _ (c : Dbcs) where
  open c use {Dbc, DerivedKey}

  -- Without overflow the loop ends, and has covered the output or taken everything.
  gather-total :
      (output : ℕ) (xs : List (Dbc × DerivedKey)) (s : Selection c)
      → s.total_input_amount + s.change_amount ≡ output
      → s.total_input_amount + funds c xs < 2 ^ 64
      → (s' : Selection c) × (gather c xs s ≡ ok s')
        × (s'.total_input_amount ≤ s.total_input_amount + funds c xs)
        × ((output ≤ s'.total_input_amount)
            ⊎ (s'.total_input_amount ≡ s.total_input_amount + funds c xs))
  unfolding gather
  gather-total output [] s b l = (s, refl, omega arith, inr (omega arith))
  gather-total output ((x, key) ∷ xs) s b l = elim (Option-cases (c.token x)) [
    | inl e ↦ ground (arith, gather-total output xs s)
    | inr (t, e) ↦
        let worth : funds c ((x, key) ∷ xs) ≡ t + funds c xs = ground arith in
        let more : List (Dbc × DerivedKey) = s.dbcs_to_spend ++ (x, key) ∷ [] in
        elim (Bool-cases (ltb t s.change_amount)) [
          | inl missing ↦
              let next : Selection c = record {
                dbcs_to_spend = more;
                total_input_amount = s.total_input_amount + t;
                change_amount = s.change_amount - t;
              } in
              let (s', g, most, covered) =
                gather-total output xs next (ground arith) (omega (arith, worth, l)) in
              (s', ground arith, omega (arith, worth, most), ground arith)
          | inr enough ↦
              let done : Selection c = record {
                dbcs_to_spend = more;
                total_input_amount = s.total_input_amount + t;
                change_amount = t - s.change_amount;
              } in
              (done, ground arith, omega (arith, worth), inl (ground arith))
        ]
  ]

  -- For DBCs worth less than 2^64 together: if they cover the output the selection succeeds, and
  -- what it selects is worth the output and the change; if they do not, it fails with their worth
  -- and the output.
  pub select_inputs_total :
      (available : List (Dbc × DerivedKey)) (output : ℕ)
      → funds c available < 2 ^ 64
      → ((output ≤ funds c available)
          → (spent : List (Dbc × DerivedKey)) × (change : ℕ) × (select_inputs c available output
              ≡ ok (spent, change))
            × (funds c spent ≡ output + change))
        × ((funds c available < output)
            → select_inputs c available output
              ≡ err (not_enough_balance (funds c available) output))
  unfolding select_inputs
  select_inputs_total available output l =
      let (s, gathered, most, covered) =
        gather-total output available (start c output) (omega arith) (omega (arith, l)) in
      (
        λ enough.
            let chosen : select_inputs c available output ≡ ok (s.dbcs_to_spend, s.change_amount) =
              ground arith in
            (
              s.dbcs_to_spend,
              s.change_amount,
              chosen,
              select_inputs-balance c available output s.dbcs_to_spend s.change_amount chosen,
            ),
        λ lacking. ground arith,
      )
