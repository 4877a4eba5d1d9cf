-- ===== src/Registers/Deps.antt =====
-- What sn_registers takes from other crates: BLS keys (`bls`), the Merkle register (`crdts`), the
-- size limit of `self_encryption`, and names (`xor_name`).
use safe_network.Base.{ℕ, ◌+◌, ◌≤◌, ◌≡◌, Bool, true, List, Option}
use safe_network.Base.Order.{Ord}

-- `Vec<u8>`
abbrev pub Bytes : Type 0
Bytes = List ℕ

-- sn_registers/src/metadata.rs: an entry is a vector of bytes.
abbrev pub Entry : Type 0
Entry = Bytes

pub record Deps : Type 1 where
  -- bls
  pub PublicKey : Type 0
  pub SecretKey : Type 0
  pub Signature : Type 0
  pub key_ord : Ord PublicKey
  pub public_key : SecretKey → PublicKey
  pub sign : SecretKey → Bytes → Signature
  pub verify : PublicKey → Signature → Bytes → Bool
  -- xor_name
  pub XorName : Type 0
  pub name_eq : Discrete XorName
  -- crdts::merkle_reg
  pub Hash : Type 0
  pub Node : Type 0
  pub MerkleReg : Type 0
  pub node_value : Node → Entry
  pub node_hash : Node → Hash
  pub merkle_new : MerkleReg
  pub merkle_write : MerkleReg → Entry → List Hash → Node
  pub merkle_apply : MerkleReg → Node → MerkleReg
  pub merkle_merge : MerkleReg → MerkleReg → MerkleReg
  pub merkle_node : MerkleReg → Hash → Option Node
  pub merkle_read : MerkleReg → List (Hash × Node)
  pub num_nodes : MerkleReg → ℕ
  pub num_orphans : MerkleReg → ℕ
  -- self_encryption
  pub min_encryptable_bytes : ℕ

-- A signature that a secret key makes is accepted under its public key.
abbrev pub SignsCorrectly : Deps → Type 0
SignsCorrectly d =
    (sk : d.SecretKey) (msg : Bytes) → d.verify (d.public_key sk) (d.sign sk msg) msg ≡ true

-- A new Merkle register is empty, and applying one node adds at most one, as a node or an orphan.
pub record GrowsByOne (d : Deps) : Type 0 where
  pub starts_empty : d.num_nodes d.merkle_new + d.num_orphans d.merkle_new ≤ 0
  pub grows :
      (m : d.MerkleReg) (n : d.Node)
      → d.num_nodes (d.merkle_apply m n) + d.num_orphans (d.merkle_apply m n)
        ≤ d.num_nodes m + d.num_orphans m + 1
