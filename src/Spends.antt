-- ===== src/Spends.antt =====
-- sn_node/src/spends.rs: aggregation of spends, and the checks against parent spends.
pub mod Aggregate
mod Tests
use safe_network.Base.{
  List, [], ◌∷◌, Bool, true, false, ◌||◌, ◌&&◌, test, if◌then◌else◌, filter, any, take, Ordering,
}
use safe_network.Base.Order.{Ord}
use safe_network.Base.Outcome.{Outcome, ok, err, ◌>>=◌, ◌>>◌}
use safe_network.Base.SortedSet.{collect}
use safe_network.Registers.Deps.{Deps}
use safe_network.Protocol.Ledger.{Ledger}
use safe_network.Protocol.Storage.{Error, is_genesis_parent_tx, spend_parent_tx_invalid}

-- `sorted_by(cmp)`: a stable sort.
module _ {ℓ} {A : Type ℓ} (o : Ord A) where
  unfoldable pub sort_insert : A → List A → List A
  sort_insert x [] = x ∷ []
  sort_insert x (y ∷ ys) =
      let rest = sort_insert x ys in elim (o.cmp x y) [ Ordering.gt ↦ y ∷ rest | _ ↦ x ∷ y ∷ ys ]

  unfoldable pub sorted_by : List A → List A
  unfolding sort_insert
  sorted_by [] = []
  sorted_by (x ∷ xs) = sort_insert x (sorted_by xs)

module _ (b : Ledger) where
  open b use {DbcId, SignedSpend}

  -- The test of the filter in `aggregate_spends`.
  unfoldable pub is_valid : DbcId → SignedSpend → Bool
  is_valid valid_dbc_id s =
      test (b.id_eq (b.dbc_id s) valid_dbc_id) && b.verify s (b.spent_tx_hash s)

  -- The `HashSet` is the sorted set of its elements, here and below.
  unfoldable pub aggregate_spends : List SignedSpend → DbcId → List SignedSpend
  unfolding is_valid sorted_by collect
  aggregate_spends spends valid_dbc_id =
      take 2 (sorted_by b.spend_ord (filter (is_valid valid_dbc_id) (collect b.spend_ord spends)))

  unfoldable pub is_genesis_spend : SignedSpend → Bool
  unfolding is_genesis_parent_tx
  is_genesis_spend s =
      is_genesis_parent_tx b (b.dbc_creation_tx s) && test (b.id_eq (b.dbc_id s) b.genesis_id)

module _ {d : Deps} (b : Ledger) where
  open b use {SignedSpend}

  -- The loop of `validate_parent_spends`.
  unfoldable pub check_parent_txs : SignedSpend → List SignedSpend → Outcome (Error d b) Unit
  check_parent_txs signed_spend [] = ok tt
  check_parent_txs signed_spend (parent ∷ parents) = do
    if test (b.hash_eq (b.dbc_creation_tx_hash signed_spend) (b.spent_tx_hash parent))
        then ok tt
        else err spend_parent_tx_invalid
    check_parent_txs signed_spend parents

  unfoldable pub validate_parent_spends : SignedSpend → List SignedSpend → Outcome (Error d b) Unit
  unfolding check_parent_txs
  validate_parent_spends signed_spend parent_spends = do
    check_parent_txs signed_spend parent_spends
    if b.verify_against_inputs_spent (b.dbc_creation_tx signed_spend) parent_spends
        then ok tt
        else err spend_parent_tx_invalid

  unfoldable pub check_parent_spends : List SignedSpend → SignedSpend → Outcome (Error d b) Unit
  unfolding is_genesis_spend validate_parent_spends
  check_parent_spends parent_spends signed_spend =
      if is_genesis_spend b signed_spend
      then ok tt
      else if any (λ o. test (b.id_eq o (b.dbc_id signed_spend)))
          (b.outputs (b.dbc_creation_tx signed_spend))
      then validate_parent_spends signed_spend parent_spends
      else err spend_parent_tx_invalid
