-- ===== src/Node/Fees/Binds.antt =====
-- What two payments with the same fee output have in common: the id of a fee output binds the
-- root of the Merkle tree and the inputs of its transaction.
use safe_network.Base.{
  ℕ, suc, ◌+◌, ◌*◌, ◌^◌, ◌≤◌, ◌<◌, ◌++◌, List, [], ◌∷◌, ◌≡◌, refl, arith, length, length-append,
  map, ◌∙◌, ap, sym, subst,
}
use mathlib.Core.List.{flatten}
use safe_network.Base.Outcome.{ok}
use safe_network.Registers.Deps.{Deps, Bytes}
use safe_network.Protocol.Ledger.{Ledger}
use safe_network.Payments.LeafIndex.{bits_value, AreBits}
use safe_network.Node.Env.{Node}
use safe_network.Node.Fees.{verify_fee_output_and_proof}
use safe_network.Node.Fees.Sound.{Proves, verify_fee_output_and_proof-Paid}

append_split :
    {A : Type 0} (xs ys cs ds : List A)
    → length xs ≡ length cs
    → xs ++ ys ≡ cs ++ ds
    → (xs ≡ cs) × (ys ≡ ds)
append_split [] ys [] ds l h = (refl, h)
append_split [] ys (c ∷ cs) ds l h = absurd (omega (arith, l))
append_split (a ∷ xs) ys [] ds l h = absurd (omega (arith, l))
append_split (a ∷ xs) ys (c ∷ cs) ds l h =
    let (same, rest) = append_split xs ys cs ds (omega (arith, l)) (cc) in (cc, rest)

-- Codes of one positive length, which tell the values apart, do so for lists of values.
flatten_inj :
    {A : Type 0} (code : A → Bytes) (width : ℕ)
    → ((a : A) → length (code a) ≡ suc width)
    → ((a c : A) → code a ≡ code c → a ≡ c)
    → (xs cs : List A) → flatten (map code xs) ≡ flatten (map code cs)
    → xs ≡ cs
unfolding flatten
flatten_inj code width wide inj [] [] h = refl
flatten_inj code width wide inj [] (c ∷ cs) h =
    absurd (omega (arith, ap length h, length-append (code c) (flatten (map code cs)), wide c))
flatten_inj code width wide inj (a ∷ xs) [] h =
    absurd (omega (arith, ap length h, length-append (code a) (flatten (map code xs)), wide a))
flatten_inj code width wide inj (a ∷ xs) (c ∷ cs) h =
    let (first, rest) =
      append_split (code a) (flatten (map code xs)) (code c) (flatten (map code cs))
        (omega (arith, wide a, wide c)) h in
    let same = flatten_inj code width wide inj xs cs rest in let head = inj a c first in cc

-- `to_bytes` of an id and `slice` of a hash are arrays of fixed lengths, and tell their values apart.
pub record IsEncoding (b : Ledger) : Type 0 where
  pub id_width : ℕ
  pub id_length : (id : b.DbcId) → length (b.id_bytes id) ≡ suc id_width
  pub id_inj : (x y : b.DbcId) → b.id_bytes x ≡ b.id_bytes y → x ≡ y
  pub slice_width : ℕ
  pub slice_length : (h : b.Hash) → length (b.hash_slice h) ≡ slice_width
  pub slice_inj : (x y : b.Hash) → b.hash_slice x ≡ b.hash_slice y → x ≡ y

-- The root hash and the ids of the inputs, as bytes.
abbrev pub tree_and_inputs : (b : Ledger) → b.DbcTransaction → Bytes
tree_and_inputs b tx = b.hash_slice (b.fee_root_hash tx) ++ flatten (map b.id_bytes (b.inputs tx))

module _ {d : Deps} {b : Ledger} (n : Node d b) where
  -- Two transactions with one root and one list of inputs, under which both names are proven, each
  -- with a fee for all leaves up to its own.
  pub record SharesTree (name : d.XorName) (fee : ℕ) (tx : b.DbcTransaction) (trail : List Bytes)
      (path : List ℕ) (name' : d.XorName) (fee' : ℕ) (tx' : b.DbcTransaction) (trail' : List Bytes)
      (path' : List ℕ) : Type 0 where
    pub same_root : b.fee_root_hash tx ≡ b.fee_root_hash tx'
    pub same_inputs : b.inputs tx ≡ b.inputs tx'
    pub proven : Proves n.merkle name (b.fee_root_hash tx) trail path
    pub proven' : Proves n.merkle name' (b.fee_root_hash tx) trail' path'
    pub covered : fee * (bits_value path + 1) ≤ b.fee_token tx
    pub covered' : fee' * (bits_value path' + 1) ≤ b.fee_token tx'

  -- Let ids and hashes be encoded as bytes of fixed lengths that tell them apart, let the hash
  -- not collide on the bytes that two transactions write for their fee outputs, and let the two
  -- paths be of at most 63 bits, with the acceptable fee for all their leaves below 2 to the 64.
  -- If both payments pass with the same id of the fee output, then they have one root hash and
  -- the same inputs, both names have a valid proof under that root, and each fee output is worth
  -- its acceptable fee for every leaf up to the one that its path writes.
  pub verify_fee_output_and_proof-SharesTree :
      (name : d.XorName) (fee : ℕ) (tx : b.DbcTransaction) (trail : List Bytes) (path : List ℕ)
      (name' : d.XorName) (fee' : ℕ) (tx' : b.DbcTransaction) (trail' : List Bytes) (path' : List ℕ)
      → IsEncoding b
      → (b.hash (tree_and_inputs b tx) ≡ b.hash (tree_and_inputs b tx')
          → tree_and_inputs b tx ≡ tree_and_inputs b tx')
      → AreBits path
      → length path ≤ 63
      → fee * 2 ^ length path < 2 ^ 64
      → AreBits path'
      → length path' ≤ 63
      → fee' * 2 ^ length path' < 2 ^ 64
      → verify_fee_output_and_proof n name fee tx trail path ≡ ok tt
      → verify_fee_output_and_proof n name' fee' tx' trail' path' ≡ ok tt
      → b.fee_id tx ≡ b.fee_id tx'
      → SharesTree name fee tx trail path name' fee' tx' trail' path'
  verify_fee_output_and_proof-SharesTree name fee tx trail path name' fee' tx' trail' path' code
        no_collision bits short small bits' short' small' h h' same_id =
      let paid = verify_fee_output_and_proof-Paid n name fee tx trail path bits short small h in
      let paid' =
        verify_fee_output_and_proof-Paid n name' fee' tx' trail' path' bits' short' small' h' in
      let same = no_collision (sym paid.bound_id ∙ same_id ∙ paid'.bound_id) in
      let (slices, ids) =
        append_split (b.hash_slice (b.fee_root_hash tx)) (flatten (map b.id_bytes (b.inputs tx)))
          (b.hash_slice (b.fee_root_hash tx')) (flatten (map b.id_bytes (b.inputs tx')))
          (code.slice_length (b.fee_root_hash tx) ∙ sym (code.slice_length (b.fee_root_hash tx')))
          same in
      let root = code.slice_inj (b.fee_root_hash tx) (b.fee_root_hash tx') slices in
      record {
        same_root = root;
        same_inputs =
            flatten_inj b.id_bytes code.id_width code.id_length code.id_inj (b.inputs tx)
              (b.inputs tx') ids;
        proven = paid.proven;
        proven' = subst (λ r. Proves n.merkle name' r trail' path') (sym root) paid'.proven;
        covered = paid.covered;
        covered' = paid'.covered;
      }
