-- ===== src/Samples.antt =====
-- Small instances of the parameters, for the tests: orders made from orders, keys that are numbers, a
-- Merkle register that is a list, a ledger whose transactions are lists of ids, and a node over them.
use safe_network.Base.{
  ℕ, suc, List, [], ◌∷◌, ◌++◌, Option, none, some, true, false, ◌≡◌, refl, arith, length, test, map,
  holds→test, ◌≢◌,
}
use Prim.Native.Nat.{Ordering}
use safe_network.Base.Order.{Ord, nat_ord}
use safe_network.Base.Outcome.{ok, err}
use safe_network.Registers.Deps.{Deps, Bytes, SignsCorrectly, GrowsByOne}
use safe_network.Registers.Model.{
  User, anyone, key, user_ord, RegisterAddress, RegisterOp, Register, SignedRegister, Codec,
}
use safe_network.Protocol.Ledger.{Ledger}
use safe_network.Protocol.Header.{Packer}
use safe_network.Protocol.Names.{Names}
use safe_network.Payments.{Merkle}
use safe_network.Node.Env.{Node, Env}

-- The lexicographic order of pairs.
module _ {A B : Type 0} (o : Ord A) (p : Ord B) where
  abbrev pub pair_cmp : A × B → A × B → Ordering
  pair_cmp x y = elim (o.cmp x.0 y.0) [
    | Ordering.eq ↦ p.cmp x.1 y.1
    | Ordering.lt ↦ Ordering.lt
    | Ordering.gt ↦ Ordering.gt
  ]

  pub pair_refl : (x : A × B) → pair_cmp x x ≡ Ordering.eq
  pair_refl (a, b) = ground (arith, o.cmp_refl a, p.cmp_refl b)

  pub pair_eq : (x y : A × B) → pair_cmp x y ≡ Ordering.eq → x ≡ y
  pair_eq (a, b) (a', b') h = ground (arith, o.cmp_eq a a', p.cmp_eq b b')

  pub pair_gt : (x y : A × B) → pair_cmp x y ≡ Ordering.gt → pair_cmp y x ≡ Ordering.lt
  pair_gt (a, b) (a', b') h =
      ground (arith, o.cmp_eq a a', o.cmp_gt a a', p.cmp_gt b b', o.cmp_refl a')

  pub pair_trans :
      (x y z : A × B)
      → pair_cmp x y ≡ Ordering.lt
      → pair_cmp y z ≡ Ordering.lt
      → pair_cmp x z ≡ Ordering.lt
  pair_trans (a, b) (a', b') (a'', b'') h k = ground (
    arith,
    o.cmp_eq a a',
    o.cmp_eq a' a'',
    o.cmp_trans a a' a'',
    o.cmp_refl a,
    p.cmp_trans b b' b'',
  )

  abbrev pub pair_ord : Ord (A × B)
  pair_ord = record {
    cmp = pair_cmp;
    cmp_refl = pair_refl;
    cmp_eq = pair_eq;
    cmp_gt = pair_gt;
    cmp_trans = pair_trans;
  }

-- An order by a key that tells apart.
module _ {A B : Type 0} (o : Ord B) (f : A → B) (inj : (x y : A) → f x ≡ f y → x ≡ y) where
  abbrev pub ord_by : Ord A
  ord_by = record {
    cmp = λ x y. o.cmp (f x) (f y);
    cmp_refl = λ x. o.cmp_refl (f x);
    cmp_eq = λ x y h. inj x y (o.cmp_eq (f x) (f y) h);
    cmp_gt = λ x y. o.cmp_gt (f x) (f y);
    cmp_trans = λ x y z. o.cmp_trans (f x) (f y) (f z);
  }

-- The lexicographic order of lists.
module _ {A : Type 0} (o : Ord A) where
  abbrev pub list_cmp : List A → List A → Ordering
  list_cmp [] [] = Ordering.eq
  list_cmp [] (y ∷ ys) = Ordering.lt
  list_cmp (x ∷ xs) [] = Ordering.gt
  list_cmp (x ∷ xs) (y ∷ ys) = elim (o.cmp x y) [
    | Ordering.eq ↦ list_cmp xs ys
    | Ordering.lt ↦ Ordering.lt
    | Ordering.gt ↦ Ordering.gt
  ]

  pub list_refl : (x : List A) → list_cmp x x ≡ Ordering.eq
  list_refl [] = refl
  list_refl (a ∷ x) = ground (arith, o.cmp_refl a, list_refl x)

  pub list_eq : (x y : List A) → list_cmp x y ≡ Ordering.eq → x ≡ y
  list_eq [] [] h = refl
  list_eq [] (b ∷ y) h = cc
  list_eq (a ∷ x) [] h = cc
  list_eq (a ∷ x) (b ∷ y) h = ground (arith, o.cmp_eq a b, list_eq x y)

  pub list_gt : (x y : List A) → list_cmp x y ≡ Ordering.gt → list_cmp y x ≡ Ordering.lt
  list_gt [] [] h = cc
  list_gt [] (b ∷ y) h = cc
  list_gt (a ∷ x) [] h = refl
  list_gt (a ∷ x) (b ∷ y) h = ground (arith, o.cmp_eq a b, o.cmp_gt a b, o.cmp_refl b, list_gt x y)

  pub list_trans :
      (x y z : List A)
      → list_cmp x y ≡ Ordering.lt
      → list_cmp y z ≡ Ordering.lt
      → list_cmp x z ≡ Ordering.lt
  list_trans [] [] z h k = cc
  list_trans [] (b ∷ y) [] h k = cc
  list_trans [] (b ∷ y) (c ∷ z) h k = refl
  list_trans (a ∷ x) [] z h k = cc
  list_trans (a ∷ x) (b ∷ y) [] h k = cc
  list_trans (a ∷ x) (b ∷ y) (c ∷ z) h k =
      ground (arith, o.cmp_eq a b, o.cmp_eq b c, o.cmp_trans a b c, o.cmp_refl a, list_trans x y z)

  abbrev pub list_ord : Ord (List A)
  list_ord = record {
    cmp = list_cmp;
    cmp_refl = list_refl;
    cmp_eq = list_eq;
    cmp_gt = list_gt;
    cmp_trans = list_trans;
  }

-- A total order decides equality.
module _ {A : Type 0} (o : Ord A) where
  pub apart_lt : (x y : A) → o.cmp x y ≡ Ordering.lt → x ≢ y
  apart_lt x y h e = cc (o.cmp_refl y)

  pub apart_gt : (x y : A) → o.cmp x y ≡ Ordering.gt → x ≢ y
  apart_gt x y h e = cc (o.cmp_refl y)

  abbrev pub decided : (x y : A) (c : Ordering) → o.cmp x y ≡ c → Dec (x ≡ y)
  decided x y Ordering.eq h = yes (o.cmp_eq x y h)
  decided x y Ordering.lt h = no (apart_lt x y h)
  decided x y Ordering.gt h = no (apart_gt x y h)

  abbrev pub same : Discrete A
  same x y = decided x y (o.cmp x y) refl

-- sn_registers: a secret key is its public key, and signs by itself; names are numbers.
abbrev pub deps : Deps
deps = record {
  PublicKey = ℕ;
  SecretKey = ℕ;
  Signature = ℕ;
  key_ord = nat_ord;
  public_key = λ sk. sk;
  sign = λ sk msg. sk;
  verify = λ pk sig msg. test (same nat_ord pk sig);
  XorName = ℕ;
  name_eq = same nat_ord;
  Hash = ℕ;
  Node = ℕ;
  MerkleReg = List ℕ;
  node_value = λ n. n ∷ [];
  node_hash = λ n. n;
  merkle_new = [];
  merkle_write = λ m e parents. length m;
  merkle_apply = λ m n. n ∷ m;
  merkle_merge = λ m m'. m ++ m';
  merkle_node = λ m h. some h;
  merkle_read = λ m. map (λ n. (n, n)) m;
  num_nodes = length;
  num_orphans = λ m. 0;
  min_encryptable_bytes = 3072;
}

pub deps-SignsCorrectly : SignsCorrectly deps
deps-SignsCorrectly sk msg = holds→test (same nat_ord sk sk) refl

pub deps-GrowsByOne : GrowsByOne deps
deps-GrowsByOne = record { starts_empty = omega arith; grows = λ m n. omega arith }

abbrev pub as_user : Option ℕ → User ℕ
as_user none = anyone
as_user (some n) = key n

as_user_inj : (x y : Option ℕ) → as_user x ≡ as_user y → x ≡ y
as_user_inj none none h = refl
as_user_inj none (some m) h = cc
as_user_inj (some n) none h = cc
as_user_inj (some n) (some m) h = cc

abbrev pub op_key : RegisterOp deps → (ℕ × ℕ) × (ℕ × (User ℕ × User ℕ))
op_key op = ((op.address.meta, op.address.owner), (op.crdt_op, (op.source, as_user op.signature)))

pub op_key_inj : (x y : RegisterOp deps) → op_key x ≡ op_key y → x ≡ y
op_key_inj x y h = ground (arith, as_user_inj x.signature y.signature)

abbrev pub address_key : RegisterAddress deps → ℕ × ℕ
address_key a = (a.meta, a.owner)

pub address_key_inj : (x y : RegisterAddress deps) → address_key x ≡ address_key y → x ≡ y
address_key_inj x y h = ground arith

abbrev pub register_key : Register deps → (ℕ × ℕ) × (List ℕ × List (User ℕ))
register_key r = (address_key r.crdt.address, (r.crdt.merkle, r.permissions.writers))

pub register_key_inj : (x y : Register deps) → register_key x ≡ register_key y → x ≡ y
register_key_inj x y h = ground arith

abbrev pub register_order : Ord (Register deps)
register_order =
    ord_by
      (pair_ord (pair_ord nat_ord nat_ord)
        (pair_ord (list_ord nat_ord) (list_ord (user_ord nat_ord))))
      register_key register_key_inj

abbrev pub op_order : Ord (RegisterOp deps)
op_order =
    ord_by
      (pair_ord (pair_ord nat_ord nat_ord)
        (pair_ord nat_ord (pair_ord (user_ord nat_ord) (user_ord nat_ord))))
      op_key op_key_inj

abbrev pub codec : Codec deps
codec = record {
  digest = λ a h u. h ∷ a.meta ∷ a.owner ∷ [];
  serialize = λ r. some (r.crdt.address.meta ∷ r.crdt.address.owner ∷ r.crdt.merkle);
  op_ord = op_order;
  address_eq = same (ord_by (pair_ord nat_ord nat_ord) address_key address_key_inj);
  register_eq = same register_order;
}

-- sn_dbc: an id is a number, a spend an id with a tag, a transaction the list of the ids of its inputs;
-- the hash of bytes is their number.
abbrev pub ledger : Ledger
ledger = record {
  DbcId = ℕ;
  Hash = ℕ;
  DbcTransaction = List ℕ;
  SignedSpend = ℕ × ℕ;
  id_eq = same nat_ord;
  hash_eq = same nat_ord;
  tx_eq = same (list_ord nat_ord);
  spend_ord = pair_ord nat_ord nat_ord;
  id_bytes = λ id. id ∷ [];
  hash_slice = λ h. h ∷ [];
  hash = length;
  dbc_id = λ s. s.0;
  spent_tx = λ s. s.0 ∷ [];
  dbc_creation_tx = λ s. [];
  spent_tx_hash = λ s. 0;
  dbc_creation_tx_hash = λ s. 0;
  verify = λ s h. true;
  inputs = λ tx. tx;
  outputs = λ tx. tx;
  fee_id = λ tx. suc (length tx);
  fee_token = λ tx. 1000;
  fee_root_hash = λ tx. 0;
  fee_is_free = λ tx. false;
  verify_against_inputs_spent = λ tx parents. true;
  genesis_src_tx = 0 ∷ [];
  genesis_id = 0;
}

abbrev pub pairs_bytes : List (ℕ × ℕ) → Bytes
pairs_bytes [] = []
pairs_bytes (s ∷ ss) = s.0 ∷ s.1 ∷ pairs_bytes ss

abbrev pub bytes_pairs : Bytes → List (ℕ × ℕ)
bytes_pairs (a ∷ b ∷ bs) = (a, b) ∷ bytes_pairs bs
bytes_pairs _ = []

abbrev pub read_header : Bytes → Option ℕ
read_header [] = none
read_header (n ∷ bs) = some n

abbrev pub header : Packer ℕ
header = record { to_vec = λ n. some (n ∷ 0 ∷ []); from_slice = read_header }

abbrev pub spends : Packer (List (ℕ × ℕ))
spends = record { to_vec = λ ss. some (pairs_bytes ss); from_slice = λ bs. some (bytes_pairs bs) }

abbrev pub names : Names deps
names = record { from_content = length; name_bytes = λ n. n ∷ []; key_bytes = λ k. k ∷ [] }

-- A proof is its path; each is valid, for the name 0 and the root 0.
abbrev pub merkle : Merkle ℕ ℕ
merkle = record {
  Proof = List ℕ;
  Item = ℕ;
  item_eq = same nat_ord;
  hash_eq = same nat_ord;
  proof_new = λ trail path. some path;
  proof_item = λ p. 0;
  proof_root = λ p. 0;
  proof_validate = λ p. some true;
  leaf = λ n. n;
}

abbrev pub signed_key :
    SignedRegister deps → (List ℕ × (ℕ × ℕ)) × (List (User ℕ) × (ℕ × List (RegisterOp deps)))
signed_key s = (
  (s.base_register.crdt.merkle, address_key s.base_register.crdt.address),
  (s.base_register.permissions.writers, (s.signature, s.ops)),
)

pub signed_key_inj : (x y : SignedRegister deps) → signed_key x ≡ signed_key y → x ≡ y
signed_key_inj x y h = ground arith

abbrev pub signed_order : Ord (SignedRegister deps)
signed_order =
    ord_by
      (pair_ord (pair_ord (list_ord nat_ord) (pair_ord nat_ord nat_ord))
        (pair_ord (list_ord (user_ord nat_ord)) (pair_ord nat_ord (list_ord op_order))))
      signed_key signed_key_inj

abbrev pub node : Node deps ledger
node = record {
  codec = codec;
  names = names;
  signed_eq = same signed_order;
  record_key_eq = same (list_ord nat_ord);
  merkle = merkle;
  header = header;
  chunks = record { to_vec = λ c. none; from_slice = λ bs. none };
  spends = spends;
  registers = record { to_vec = λ r. none; from_slice = λ bs. none };
}

-- A node that holds nothing and finds nothing.
abbrev pub env : Env deps ledger
env = record {
  is_key_present_locally = λ key. ok false;
  get_local_record = λ key. ok none;
  get_record_from_network = λ key again. err tt;
  get_local_storecost = ok 10;
  put_local_record = λ r. ok tt;
  join_order = λ tasks. tasks;
}
