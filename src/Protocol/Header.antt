-- ===== src/Protocol/Header.antt =====
-- sn_protocol/src/storage/header.rs: record kinds, headers, and records as bytes. `rmp_serde` is a
-- parameter. A slice out of range panics.
use safe_network.Base.{
  Option-cases, inl, inr, ℕ, zero, suc, ◌<◌, [], ◌∷◌, ◌++◌, Option, none, some, ◌≡◌, refl, arith,
  length, take, ltb, if◌then◌else◌,
}
use safe_network.Base.Outcome.{Outcome, ok, err, ok_or, ◌>>=◌}
use safe_network.Registers.Deps.{Deps, Bytes}
use safe_network.Protocol.Ledger.{Ledger}
use safe_network.Protocol.Storage.{
  RecordKind, chunk, dbc_spend, register, Error, panicked, record_header_parsing_failed,
  record_parsing_failed,
}

abbrev pub header_size : ℕ
header_size = 2

-- `libp2p::kad::Record`, without publisher and expiry, which the code leaves empty
pub record Record : Type 0 where
  pub key : Bytes
  pub value : Bytes

-- `rmp_serde::to_vec` and `rmp_serde::from_slice` at one type
pub record Packer (T : Type 0) : Type 0 where
  pub to_vec : T → Option Bytes
  pub from_slice : Bytes → Option T

-- What was packed is unpacked.
abbrev pub Unpacks : {T : Type 0} → Packer T → Type 0
Unpacks {T} p = (x : T) (b : Bytes) → p.to_vec x ≡ some b → p.from_slice b ≡ some x

-- A header, packed as its number, takes two bytes, and is read from them whatever byte follows.
abbrev pub UnpacksHeader : Packer ℕ → Type 0
UnpacksHeader p =
    (n : ℕ) (b : Bytes)
    → p.to_vec n ≡ some b
    → (length b ≡ header_size) × ((x : ℕ) → p.from_slice (b ++ x ∷ []) ≡ some n)

-- `Serialize` and `Deserialize` of `RecordKind`
unfoldable pub kind_code : RecordKind → ℕ
kind_code chunk = 0
kind_code dbc_spend = 1
kind_code register = 2

unfoldable pub code_kind : ℕ → Option RecordKind
code_kind zero = some chunk
code_kind (suc zero) = some dbc_spend
code_kind (suc (suc zero)) = some register
code_kind (suc (suc (suc n))) = none

abbrev pub drop : ℕ → Bytes → Bytes
drop zero b = b
drop (suc n) [] = []
drop (suc n) (x ∷ b) = drop n b

-- Kinds are told apart by their numbers.
pub code_kind-kind_code : (kind : RecordKind) → code_kind (kind_code kind) ≡ some kind
unfolding code_kind kind_code
code_kind-kind_code chunk = refl
code_kind-kind_code dbc_spend = refl
code_kind-kind_code register = refl

module _ {d : Deps} {b : Ledger} (header : Packer ℕ) where
  unfoldable pub header_try_serialize : RecordKind → Outcome (Error d b) Bytes
  unfolding kind_code
  header_try_serialize kind = ok_or (header.to_vec (kind_code kind)) record_header_parsing_failed

  unfoldable pub header_try_deserialize : Bytes → Outcome (Error d b) RecordKind
  unfolding code_kind
  header_try_deserialize bytes = do
    n ← ok_or (header.from_slice bytes) record_header_parsing_failed
    ok_or (code_kind n) record_header_parsing_failed

  -- `RecordHeader::from_record`: `value[..SIZE + 1]`
  unfoldable pub from_record : Record → Outcome (Error d b) RecordKind
  unfolding header_try_deserialize
  from_record r =
      if ltb (length r.value) (suc header_size)
      then err panicked
      else header_try_deserialize (take (suc header_size) r.value)

  module _ {T : Type 0} (packer : Packer T) where
    -- `value[SIZE..]`
    unfoldable pub try_deserialize_record : Record → Outcome (Error d b) T
    try_deserialize_record r =
        if ltb (length r.value) header_size
        then err panicked
        else ok_or (packer.from_slice (drop header_size r.value)) record_parsing_failed

    unfoldable pub try_serialize_record : T → RecordKind → Outcome (Error d b) Bytes
    unfolding header_try_serialize
    try_serialize_record x kind = do
      payload ← ok_or (packer.to_vec x) record_parsing_failed
      value ← header_try_serialize kind
      ok (value ++ payload)

    read_back :
        (x : T) (kind : RecordKind) (key hdr payload : Bytes)
        → length hdr ≡ header_size
        → header_size < length (hdr ++ payload)
        → ((y : ℕ) → header.from_slice (hdr ++ y ∷ []) ≡ some (kind_code kind))
        → packer.from_slice payload ≡ some x
        → (from_record (record { key = key; value = hdr ++ payload }) ≡ ok kind)
          × (try_deserialize_record (record { key = key; value = hdr ++ payload }) ≡ ok x)
    unfolding from_record try_deserialize_record
    read_back x kind key (a ∷ c ∷ []) (y ∷ ys) two long h u =
        (ground (arith, h y, code_kind-kind_code kind), ground arith)
    read_back x kind key (a ∷ c ∷ []) [] two long h u = absurd (omega arith)
    read_back x kind key hdr payload two long h u = absurd (omega arith)

    -- Where the packers unpack what they packed, and headers take two bytes: a record that was
    -- serialised, with at least one byte of payload, has its kind read back from its header and
    -- its data from the rest.
    pub from_record-try_serialize_record :
        (x : T) (kind : RecordKind) (key value : Bytes)
        → UnpacksHeader header
        → Unpacks packer
        → header_size < length value
        → try_serialize_record x kind ≡ ok value
        → (from_record (record { key = key; value = value }) ≡ ok kind)
          × (try_deserialize_record (record { key = key; value = value }) ≡ ok x)
    unfolding try_serialize_record
    from_record-try_serialize_record x kind key value h u l e =
        elim (Option-cases (packer.to_vec x)) [
          | inl none_packed ↦ absurd (ground arith)
          | inr (payload, packed) ↦ elim (Option-cases (header.to_vec (kind_code kind))) [
            | inl no_header ↦ absurd (ground arith)
            | inr (hdr, coded) ↦
                let made : value ≡ hdr ++ payload = ground arith in
                let (two, reads) = h (kind_code kind) hdr coded in
                rw made
                  (read_back x kind key hdr payload two (rw made at l) reads (u x payload packed))
          ]
        ]
