-- ===== src/Payments/LeafIndex.antt =====
-- `leaf_index` of payment_proof/mod.rs, and the number that a path of bits writes, the first bit lowest.
use safe_network.Base.{
  ℕ, ◌+◌, ◌*◌, ◌^◌, ◌≤◌, ◌<◌, List, [], ◌∷◌, ◌≡◌, refl, ap, ◌∙◌, arith, length, All,
}
use mathlib.Core.List.{foldl, foldl-append, reverse, reverse-append}
use native.Mathlib.Nat.{pow-suc, pow-le-pow_right}
use safe_network.Payments.{index_step, leaf_index}

-- Binary numbers, the lowest bit first.
abbrev pub bits_value : List ℕ → ℕ
bits_value [] = 0
bits_value (p ∷ ps) = p + 2 * bits_value ps

abbrev pub AreBits : List ℕ → Type 0
AreBits = All (λ p. p < 2)

bits_value-lt : (ps : List ℕ) → AreBits ps → bits_value ps < 2 ^ length ps
bits_value-lt [] h = omega arith
bits_value-lt (p ∷ ps) h = rw pow-suc (omega (arith, bits_value-lt ps h.1, h.0))

leaf_index-cons : (p : ℕ) (ps : List ℕ) → leaf_index (p ∷ ps) ≡ index_step (leaf_index ps) p
unfolding leaf_index
leaf_index-cons p ps =
    ap (foldl index_step 0) (reverse-append (p ∷ []) ps)
    ∙ foldl-append index_step 0 (reverse ps) (p ∷ [])

value : (path : List ℕ) → AreBits path → length path ≤ 64 → leaf_index path ≡ bits_value path
value [] h l = unfold leaf_index in refl
value (p ∷ ps) h l =
    let small = pow-le-pow_right {n = 2} (omega arith) {i = length ps} {j = 63} (omega arith) in
    leaf_index-cons p ps
    ∙ ap (λ i. index_step i p) (value ps h.1 (omega arith))
    ∙ omega (arith, bits_value-lt ps h.1, small, h.0)

-- For a path of at most 64 bits nothing overflows: the index is the value of the bits, and is
-- below 2 to the power of the length of the path.
pub leaf_index-bits_value :
    (path : List ℕ)
    → AreBits path
    → length path ≤ 64
    → (leaf_index path ≡ bits_value path) × (leaf_index path < 2 ^ length path)
leaf_index-bits_value path h l = (value path h l, rw (value path h l) (bits_value-lt path h))
