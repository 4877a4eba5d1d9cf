-- ===== src/Registers/Model.antt =====
-- The data of sn_registers: users and permissions (permissions.rs), addresses (address.rs),
-- operations (register_op.rs), errors (error.rs), the CRDT (reg_crdt.rs) and the register
-- (register.rs); and what the code uses of derived or foreign functions on these types.
use Prim.Native.Nat.{Ordering}
use safe_network.Base.{ℕ, ◌≡◌, refl, ap, List, Option}
use safe_network.Base.Order.{Ord}
use safe_network.Registers.Deps.{Deps, Bytes}

pub data User (Key : Type 0) : Type 0 where
  anyone : User Key
  key : Key → User Key

-- `#[derive(Ord)]`: `Anyone` is below each key.
module _ {Key : Type 0} (o : Ord Key) where
  abbrev pub user_cmp : User Key → User Key → Ordering
  user_cmp anyone anyone = Ordering.eq
  user_cmp anyone (key b) = Ordering.lt
  user_cmp (key a) anyone = Ordering.gt
  user_cmp (key a) (key b) = o.cmp a b

  pub user_cmp_refl : (a : User Key) → user_cmp a a ≡ Ordering.eq
  user_cmp_refl anyone = refl
  user_cmp_refl (key a) = o.cmp_refl a

  pub user_cmp_eq : (a b : User Key) → user_cmp a b ≡ Ordering.eq → a ≡ b
  user_cmp_eq anyone anyone h = refl
  user_cmp_eq anyone (key b) h = cc
  user_cmp_eq (key a) anyone h = cc
  user_cmp_eq (key a) (key b) h = ap key (o.cmp_eq a b h)

  pub user_cmp_gt : (a b : User Key) → user_cmp a b ≡ Ordering.gt → user_cmp b a ≡ Ordering.lt
  user_cmp_gt anyone anyone h = cc
  user_cmp_gt anyone (key b) h = cc
  user_cmp_gt (key a) anyone h = refl
  user_cmp_gt (key a) (key b) h = o.cmp_gt a b h

  pub user_cmp_trans :
      (a b c : User Key)
      → user_cmp a b ≡ Ordering.lt
      → user_cmp b c ≡ Ordering.lt
      → user_cmp a c ≡ Ordering.lt
  user_cmp_trans anyone anyone c h k = cc
  user_cmp_trans anyone (key b) anyone h k = cc
  user_cmp_trans anyone (key b) (key c) h k = refl
  user_cmp_trans (key a) anyone c h k = cc
  user_cmp_trans (key a) (key b) anyone h k = cc
  user_cmp_trans (key a) (key b) (key c) h k = o.cmp_trans a b c h k

  abbrev pub user_ord : Ord (User Key)
  user_ord = record {
    cmp = user_cmp;
    cmp_refl = user_cmp_refl;
    cmp_eq = user_cmp_eq;
    cmp_gt = user_cmp_gt;
    cmp_trans = user_cmp_trans;
  }

module _ (d : Deps) where
  open d use {PublicKey, SecretKey, Signature, XorName, Hash, Node, MerkleReg}

  -- `writers` is a `BTreeSet<User>`.
  pub record Permissions : Type 0 where
    pub writers : List (User PublicKey)

  pub record RegisterAddress : Type 0 where
    pub meta : XorName
    pub owner : PublicKey

  pub record RegisterOp : Type 0 where
    pub address : RegisterAddress
    pub crdt_op : Node
    pub source : User PublicKey
    pub signature : Option Signature

  pub data Error : Type 0 where
    register_addr_mismatch : RegisterAddress → RegisterAddress → Error
    entry_too_big : ℕ → ℕ → Error
    access_denied : User PublicKey → Error
    too_many_entries : ℕ → Error
    no_such_entry : Hash → Error
    serialisation_failed : Error
    different_base_register : Error
    invalid_signature : Error
    missing_signature : Error
    invalid_secret_key : Error
    invalid_register_address : RegisterAddress → RegisterAddress → Error
    hex_deserialize_failed : Error

  pub record RegisterCrdt : Type 0 where
    pub address : RegisterAddress
    pub merkle : MerkleReg

  pub record Register : Type 0 where
    pub crdt : RegisterCrdt
    pub permissions : Permissions

  -- `ops` is a `BTreeSet<RegisterOp>`.
  pub record SignedRegister : Type 0 where
    pub base_register : Register
    pub signature : Signature
    pub ops : List RegisterOp

  -- The digest that `bytes_for_signing` takes with the standard hasher, `bincode::serialize`, and
  -- the derived order and equalities.
  pub record Codec : Type 0 where
    pub digest : RegisterAddress → Hash → User PublicKey → Bytes
    pub serialize : Register → Option Bytes
    pub op_ord : Ord RegisterOp
    pub address_eq : Discrete RegisterAddress
    pub register_eq : Discrete Register
