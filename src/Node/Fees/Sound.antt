-- ===== src/Node/Fees/Sound.antt =====
-- What a fee output and a payment proof that pass the checks of put_validation.rs satisfy, in terms
-- of the Merkle tree, of the number that the path writes and of unbounded arithmetic.
use safe_network.Base.{
  Bool, Option, ℕ, ◌+◌, ◌*◌, ◌^◌, ◌≤◌, ◌<◌, ◌++◌, List, Option, none, some, Bool, if◌then◌else◌,
  ◌%◌, true, false, ◌≡◌, refl, arith, test→holds, length, map, ◌∙◌, ap,
}
use mathlib.Core.List.{flatten}
use native.Mathlib.Nat.{pow-le-pow_right, mul-le-mul_left, mod-eq_of_lt, lt_of_le_of_lt}
use safe_network.Base.Outcome.{ok_or, map_err, Outcome, ok, err, ok_or, map_err, first_ok}
use safe_network.Registers.Deps.{Deps, Bytes}
use safe_network.Protocol.Ledger.{Ledger}
use safe_network.Payments.{
  audit_trail_self_validation, invalid_audit_trail, Merkle, validate_payment_proof, leaf_index,
}
use safe_network.Payments.LeafIndex.{bits_value, AreBits, leaf_index-bits_value}
use safe_network.Node.Env.{Node}
use safe_network.Node.Fees.{
  invalid_payment_proof, fee_id_bytes, verify_fee_output_id, expected_fee,
  verify_fee_output_and_proof,
}

-- A Merkle proof, as the trail and the path give it, that a name is a leaf of the tree with a root.
pub record Proves {Name Hash : Type 0} (m : Merkle Name Hash) (name : Name) (root : Hash)
    (trail : List Bytes) (path : List ℕ) : Type 0 where
  pub proof : m.Proof
  pub parses : m.proof_new trail path ≡ some proof
  pub is_leaf : m.leaf name ≡ m.proof_item proof
  pub has_root : root ≡ m.proof_root proof
  pub validates : m.proof_validate proof ≡ some true

ok_or-some {ℓ} : {E A : Type ℓ} (o : Option A) (e : E) (a : A) → ok_or o e ≡ ok a → o ≡ some a
ok_or-some none e a h = cc
ok_or-some (some x) e a h = cc

guard_holds {ℓ} :
    {E : Type ℓ} (test_holds : Bool) (e : E) (u : Unit {ℓ})
    → (if test_holds then ok tt else err e) ≡ ok u
    → test_holds ≡ true
guard_holds true e u h = refl
guard_holds false e u h = cc

map_err-ok {ℓ} :
    {E F A : Type ℓ} (f : E → F) (o : Outcome E A) (a : A) → map_err f o ≡ ok a → o ≡ ok a
map_err-ok f (err e) a h = cc
map_err-ok f (ok x) a h = cc

module _ {Name Hash : Type 0} (m : Merkle Name Hash) where
  validate_payment_proof-Proves :
      (name : Name) (root : Hash) (trail : List Bytes) (path : List ℕ) (i : ℕ)
      → validate_payment_proof m name root trail path ≡ ok i
      → Proves m name root trail path × (leaf_index path ≡ i)
  unfolding validate_payment_proof
  validate_payment_proof-Proves name root trail path i h =
      let (proof, parsed, h1) = first_ok (ok_or (m.proof_new trail path) invalid_audit_trail) _ h in
      let (u, leaf, h2) = first_ok _ _ h1 in
      let (v, root_is, h3) = first_ok _ _ h2 in
      let (valid, validated, h4) =
        first_ok (ok_or (m.proof_validate proof) audit_trail_self_validation) _ h3 in
      let (w, is_valid, h5) = first_ok _ _ h4 in
      (
        record {
          proof = proof;
          parses = ok_or-some _ _ proof parsed;
          is_leaf =
              test→holds (m.item_eq (m.leaf name) (m.proof_item proof)) (guard_holds _ _ u leaf);
          has_root = test→holds (m.hash_eq root (m.proof_root proof)) (guard_holds _ _ v root_is);
          validates =
              ok_or-some _ _ valid validated
              ∙ ap some (guard_holds valid audit_trail_self_validation w is_valid);
        },
        cc,
      )

module _ {d : Deps} {b : Ledger} (n : Node d b) where
  pub record Paid (name : d.XorName) (fee : ℕ) (tx : b.DbcTransaction) (trail : List Bytes)
      (path : List ℕ) : Type 0 where
    pub not_free : b.fee_is_free tx ≡ false
    pub bound_id :
        b.fee_id tx
        ≡ b.hash (b.hash_slice (b.fee_root_hash tx) ++ flatten (map b.id_bytes (b.inputs tx)))
    pub proven : Proves n.merkle name (b.fee_root_hash tx) trail path
    pub covered : fee * (bits_value path + 1) ≤ b.fee_token tx

  -- What is expected does not overflow on a short path.
  expected_fee-bits_value :
      (fee : ℕ) (path : List ℕ)
      → AreBits path
      → length path ≤ 63
      → fee * 2 ^ length path < 2 ^ 64
      → expected_fee fee (leaf_index path) ≡ fee * (bits_value path + 1)
  expected_fee-bits_value fee path bits short small =
      let (same, below) = leaf_index-bits_value path bits (omega (arith, short)) in
      let wide = pow-le-pow_right {n = 2} (omega arith) {i = length path} {j = 63} short in
      let next : (leaf_index path + 1) % 2 ^ 64 ≡ bits_value path + 1 =
        omega (arith, same, below, wide) in
      let whole =
        mul-le-mul_left {m = bits_value path + 1} {n = 2 ^ length path} fee
          (omega (arith, same, below)) in
      rw next (mod-eq_of_lt (lt_of_le_of_lt whole small))

  verify_fee_output_id-bound :
      (tx : b.DbcTransaction) (u : Unit {0})
      → verify_fee_output_id {d = d} {b = b} tx true ≡ ok u
      → (b.fee_is_free tx ≡ false)
        × (b.fee_id tx
            ≡ b.hash (b.hash_slice (b.fee_root_hash tx) ++ flatten (map b.id_bytes (b.inputs tx))))
  unfolding verify_fee_output_id fee_id_bytes
  verify_fee_output_id-bound tx u h =
      ground (arith, test→holds (b.hash_eq (b.fee_id tx) (b.hash (fee_id_bytes b tx))))

  -- On a path of bits that is short enough, without overflow, what passes is paid.
  pub verify_fee_output_and_proof-Paid :
      (name : d.XorName) (fee : ℕ) (tx : b.DbcTransaction) (trail : List Bytes) (path : List ℕ)
      → AreBits path
      → length path ≤ 63
      → fee * 2 ^ length path < 2 ^ 64
      → verify_fee_output_and_proof n name fee tx trail path ≡ ok tt
      → Paid name fee tx trail path
  unfolding verify_fee_output_and_proof
  verify_fee_output_and_proof-Paid name fee tx trail path bits short small h =
      let (u, output, h1) = first_ok (verify_fee_output_id tx true) _ h in
      let (index, validated, h2) =
        first_ok
          (map_err (λ _. invalid_payment_proof name)
            (validate_payment_proof n.merkle name (b.fee_root_hash tx) trail path))
          _ h1 in
      let (free, id) = verify_fee_output_id-bound tx u output in
      let (proven, at) =
        validate_payment_proof-Proves n.merkle name (b.fee_root_hash tx) trail path index
          (map_err-ok _ _ index validated) in
      record {
        not_free = free;
        bound_id = id;
        proven = proven;
        covered = ground (arith, h2, at, expected_fee-bits_value fee path bits short small);
      }
