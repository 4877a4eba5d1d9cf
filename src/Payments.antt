-- ===== src/Payments.antt =====
-- sn_transfers/src/payment_proof: validation of payment proofs, and the leaf index of a path. The
-- `merkletree` crate and the hasher are parameters.
pub mod LeafIndex
mod Tests
use safe_network.Base.{
  ℕ, ◌+◌, ◌*◌, ◌%◌, ◌^◌, List, [], ◌∷◌, Option, none, some, Bool, true, false, test, if◌then◌else◌,
}
use mathlib.Core.List.{foldl, reverse}
use safe_network.Base.Outcome.{Outcome, ok, err, ok_or, ◌>>=◌, ◌>>◌}
use safe_network.Registers.Deps.{Bytes}

pub record Merkle (Name Hash : Type 0) : Type 1 where
  pub Proof : Type 0
  pub Item : Type 0
  pub item_eq : Discrete Item
  pub hash_eq : Discrete Hash
  -- `Proof::new(None, lemma, path).ok()`
  pub proof_new : List Bytes → List ℕ → Option Proof
  pub proof_item : Proof → Item
  pub proof_root : Proof → Hash
  -- `proof.validate().ok()`
  pub proof_validate : Proof → Option Bool
  -- `Sha256Hasher::leaf`
  pub leaf : Name → Item

-- payment_proof/error.rs, without the texts
pub data Error (Name Hash : Type 0) : Type 0 where
  proof_tree gen_audit_trail : Error Name Hash
  invalid_audit_trail audit_trail_self_validation : Error Name Hash
  audit_trail_item_mismatch : Name → Error Name Hash
  root_hash_mismatch : Hash → Error Name Hash

-- `(leaf_index << 1) + p` on a 64-bit `usize`
abbrev pub index_step : ℕ → ℕ → ℕ
index_step index p = (index * 2 % 2 ^ 64 + p) % 2 ^ 64

unfoldable pub leaf_index : List ℕ → ℕ
leaf_index path = foldl index_step 0 (reverse path)

module _ {Name Hash : Type 0} (m : Merkle Name Hash) where
  unfoldable pub validate_payment_proof :
      Name → Hash → List Bytes → List ℕ → Outcome (Error Name Hash) ℕ
  unfolding leaf_index
  validate_payment_proof addr_name root_hash audit_trail path = do
    proof ← ok_or (m.proof_new audit_trail path) invalid_audit_trail
    if test (m.item_eq (m.leaf addr_name) (m.proof_item proof))
        then ok tt
        else err (audit_trail_item_mismatch addr_name)
    if test (m.hash_eq root_hash (m.proof_root proof))
        then ok tt
        else err (root_hash_mismatch root_hash)
    valid ← ok_or (m.proof_validate proof) audit_trail_self_validation
    if valid then ok tt else err audit_trail_self_validation
    ok (leaf_index path)
