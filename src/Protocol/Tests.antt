-- ===== src/Protocol/Tests.antt =====
-- A record of two spends, read back.
use safe_network.Base.{ℕ, List, [], ◌∷◌, ◌≡◌, refl, arith}
use safe_network.Base.Outcome.{ok}
use safe_network.Samples.{deps, ledger, header, spends, pairs_bytes, bytes_pairs}
use safe_network.Protocol.Storage.{dbc_spend}
use safe_network.Protocol.Header.{
  Unpacks, UnpacksHeader, from_record, try_deserialize_record, try_serialize_record,
  header_try_serialize, kind_code, from_record-try_serialize_record,
}

header-UnpacksHeader : UnpacksHeader header
header-UnpacksHeader n b h = (ground arith, λ x. ground arith)

pairs : (ss : List (ℕ × ℕ)) → bytes_pairs (pairs_bytes ss) ≡ ss
pairs [] = refl
pairs (s ∷ ss) = ground (arith, pairs ss)

spends-Unpacks : Unpacks spends
spends-Unpacks ss b h = ground (arith, pairs ss)

from_record-try_serialize_record_example :
    (from_record {d = deps} {b = ledger} header
        (record { key = 9 ∷ []; value = 1 ∷ 0 ∷ 7 ∷ 3 ∷ [] })
      ≡ ok dbc_spend)
    × (try_deserialize_record {d = deps} {b = ledger} header spends
          (record { key = 9 ∷ []; value = 1 ∷ 0 ∷ 7 ∷ 3 ∷ [] })
        ≡ ok ((7, 3) ∷ []))
from_record-try_serialize_record_example =
    from_record-try_serialize_record header spends ((7, 3) ∷ []) dbc_spend (9 ∷ [])
      (1 ∷ 0 ∷ 7 ∷ 3 ∷ []) header-UnpacksHeader spends-Unpacks (omega arith)
      (unfold try_serialize_record header_try_serialize kind_code in refl)
