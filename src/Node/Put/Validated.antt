-- ===== src/Node/Put/Validated.antt =====
-- What the validations of put_validation.rs give: the spends that are to be stored, and the register.
use safe_network.Base.{
  test, if◌then◌else◌, ◌≤◌, List, [], ◌∷◌, ◌++◌, Option, none, some, Bool, true, false, ◌≡◌, ◌≢◌,
  refl, sym, ◌∙◌, arith, length, All,
}
use safe_network.Base.Outcome.{Outcome, ok, err, ◌>>=◌}
use safe_network.Base.Order.{eqb_refl, eqb→eq}
use safe_network.Base.SortedSet
use safe_network.Base.SortedSet.{All-contains, IsSorted, contains, contains-extend}
use safe_network.Registers.Deps.{Deps}
use safe_network.Registers.Model
use safe_network.Registers.Model.{SignedRegister, RegisterOp}
use safe_network.Registers.Signed
use safe_network.Protocol.Ledger.{Ledger}
use safe_network.Spends.{is_valid, aggregate_spends}
use safe_network.Spends.Aggregate.{aggregate_members, aggregate_bounds, aggregate_detects}
use safe_network.Protocol.Storage.{stored_successfully}
use safe_network.Node.Env.{Node, Env}
use safe_network.Node.Put.Handlers.{notify}
use safe_network.Node.Put.Spend.{
  merge_with_local, single_spend_validation, validate_by_count, validate_new, local_spends,
  newly_seen_spends, signed_spend_validation,
}

-- If it succeeds, its value satisfies the predicate.
record Gives {E A : Type 0} (P : A → Type 0) (o : Outcome E A) : Type 0 where
  pub holds : (a : A) → o ≡ ok a → P a

ok-inj : {E B : Type 0} (x y : B) (o : Outcome E B) → o ≡ ok x → o ≡ ok y → x ≡ y
ok-inj x y o h k = cc

Gives-ok : {E B : Type 0} (P : B → Type 0) (x : B) → P x → Gives {E = E} P (ok x)
Gives-ok P x p = record { holds = λ y h. rw (ok-inj x y (ok x) refl h) at p }

module _ {E A B : Type 0} where
  Gives-last :
      (P : B → Type 0) (m : Outcome E A) (f : A → Outcome E B)
      → ((a : A) → Gives P (f a))
      → Gives P (m >>= f)
  Gives-last P (ok a) f k = k a
  Gives-last P (err e) f k = record { holds = λ x h. cc }

  Gives-bind :
      (Q : A → Type 0) (P : B → Type 0) (m : Outcome E A) (f : A → Outcome E B)
      → Gives Q m
      → ((a : A) → Q a → Gives P (f a))
      → Gives P (m >>= f)
  Gives-bind Q P (ok a) f g k = k a (g.holds a refl)
  Gives-bind Q P (err e) f g k = record { holds = λ x h. cc }

module _ {d : Deps} {b : Ledger} (n : Node d b) (env : Env d b) where
  open b use {SignedSpend, DbcId, spend_ord as o}

  -- Spends fit for storage: at most two, ascending without repetition, each valid for the id.
  pub record Storable (id : DbcId) (spends : List SignedSpend) : Type 0 where
    pub at_most_two : length spends ≤ 2
    pub ascending : IsSorted o spends
    pub valid : All (λ s. is_valid b id s ≡ true) spends

  aggregate-Storable : (xs : List SignedSpend) (id : DbcId) → Storable id (aggregate_spends b xs id)
  aggregate-Storable xs id = record {
    at_most_two = (aggregate_bounds b id xs).0;
    ascending = (aggregate_bounds b id xs).1;
    valid = (aggregate_bounds b id xs).2;
  }

  single-Storable :
      (s : SignedSpend) (id : DbcId) → Gives (Storable id) (single_spend_validation n env s id)
  unfolding single_spend_validation
  single-Storable s id = search (Gives-last, Gives-ok, aggregate-Storable) depth 9

  validate_by_count-Storable :
      (xs : List SignedSpend) (id : DbcId) → Gives (Storable id) (validate_by_count n env xs id)
  unfolding validate_by_count
  validate_by_count-Storable [] id = record { holds = λ spends h. cc }
  validate_by_count-Storable (s ∷ []) id = single-Storable s id
  validate_by_count-Storable (s ∷ t ∷ xs) id = search (Gives-ok, aggregate-Storable)

  abbrev IfSome : DbcId → Option (List SignedSpend) → Type 0
  IfSome id none = Unit
  IfSome id (some spends) = Storable id spends

  counted-Storable :
      (xs : List SignedSpend) (id : DbcId)
      → Gives (IfSome id) (validate_by_count n env xs id >>= λ spends. ok (some spends))
  counted-Storable xs id =
      Gives-bind (Storable id) (IfSome id) _ _ (validate_by_count-Storable xs id)
        (λ spends fit. Gives-ok (IfSome id) (some spends) fit)

  validate_new-Storable :
      (newly held : List SignedSpend) (id : DbcId)
      → Gives (IfSome id) (validate_new n env newly held id)
  unfolding validate_new
  validate_new-Storable [] held id = Gives-ok (IfSome id) none tt
  validate_new-Storable (s ∷ newly) held id = counted-Storable (held ++ s ∷ newly) id

  validation-Storable :
      (xs : List SignedSpend) (id : DbcId) (present : Bool)
      → Gives (IfSome id) (signed_spend_validation n env xs id present)
  unfolding signed_spend_validation
  validation-Storable xs id false = counted-Storable xs id
  validation-Storable xs id true =
      Gives-last (IfSome id) (local_spends n env id) _
        (λ held. validate_new-Storable (newly_seen_spends n env xs held) held id)

  -- Whatever is sent and held, if the validation gives spends to store, they are at most two,
  -- ascending without repetition, and each is valid for the id.
  pub signed_spend_validation-Storable :
      (xs : List SignedSpend) (id : DbcId) (present : Bool) (spends : List SignedSpend)
      → signed_spend_validation n env xs id present ≡ ok (some spends)
      → Storable id spends
  signed_spend_validation-Storable xs id present spends h =
      (validation-Storable xs id present).holds (some spends) h

  -- For an id that is not held, two distinct spends that arrive together and are both valid for
  -- it are detected: the validation gives exactly two spends to store.
  pub signed_spend_validation-detects :
      (xs : List SignedSpend) (id : DbcId) (x y : SignedSpend)
      → x ≢ y
      → is_valid b id x ≡ true
      → is_valid b id y ≡ true
      → contains o x xs ≡ true
      → contains o y xs ≡ true
      → (spends : List SignedSpend) × (signed_spend_validation n env xs id false ≡ ok (some spends))
        × (length spends ≡ 2)
  unfolding signed_spend_validation validate_by_count
  signed_spend_validation-detects [] id x y e v w h k = unfold contains in cc
  signed_spend_validation-detects (s ∷ []) id x y e v w h k =
      absurd (e (unfold contains in ground (arith, eqb→eq o x s, eqb→eq o y s)))
  signed_spend_validation-detects (s ∷ t ∷ xs) id x y e v w h k =
      (aggregate_spends b (s ∷ t ∷ xs) id, refl, aggregate_detects b id (s ∷ t ∷ xs) x y e v w h k)

  aggregate-invalid :
      (xs : List SignedSpend) (id : DbcId)
      → All (λ s. is_valid b id s ≡ false) xs
      → aggregate_spends b xs id ≡ []
  aggregate-invalid xs id h = go (aggregate_spends b xs id) refl
    where
      go : (ys : List SignedSpend) → aggregate_spends b xs id ≡ ys → aggregate_spends b xs id ≡ []
      go [] q = q
      go (y ∷ ys) q =
          let valid : is_valid b id y ≡ true = (rw q at (aggregate_bounds b id xs).2).0 in
          let first : contains o y (y ∷ ys) ≡ true =
            unfold contains in ground (arith, eqb_refl o y) in
          let seen = aggregate_members b id xs y (rw q first) in
          let invalid = All-contains o (λ s. is_valid b id s ≡ false) y xs seen h in cc

  -- Two or more spends that are all invalid for an id that is not held pass the validation, which
  -- gives the empty list to store, and `notify` then answers that they were stored.
  pub signed_spend_validation-invalid :
      (s t : SignedSpend) (xs : List SignedSpend) (id : DbcId)
      → All (λ s. is_valid b id s ≡ false) (s ∷ t ∷ xs)
      → (signed_spend_validation n env (s ∷ t ∷ xs) id false ≡ ok (some []))
        × (notify n env [] ≡ ok stored_successfully)
  unfolding signed_spend_validation validate_by_count notify
  signed_spend_validation-invalid s t xs id h =
      (ground (arith, aggregate-invalid (s ∷ t ∷ xs) id h), refl)

  -- What a local register is replaced with.
  pub record Replaces (mine theirs kept : SignedRegister d) : Type 0 where
    pub same_base : kept.base_register ≡ mine.base_register
    pub differs : kept ≢ mine
    pub keeps_ours :
        (op : RegisterOp d)
        → contains n.codec.op_ord op mine.ops ≡ true
        → contains n.codec.op_ord op kept.ops ≡ true
    pub takes_theirs :
        (op : RegisterOp d)
        → contains n.codec.op_ord op theirs.ops ≡ true
        → contains n.codec.op_ord op kept.ops ≡ true

  merged :
      (mine theirs m : SignedRegister d)
      → Signed.verified_merge n.codec mine theirs ≡ ok m
      → m ≡ record mine { ops = SortedSet.extend n.codec.op_ord mine.ops theirs.ops }
  unfolding Signed.verified_merge
  merged mine theirs m h = ground arith

  if_other :
      (mine m kept : SignedRegister d)
      → (if test (n.signed_eq m mine) then none else some m) ≡ some kept
      → (kept ≡ m) × (m ≢ mine)
  if_other mine m kept h = elim (n.signed_eq m mine) [
    | yes e ↦ absurd (ground arith)
    | no e ↦ (ground arith, e)
  ]

  -- A register that is to be stored in place of the local one has the local base and every local
  -- operation, has every operation that was received, and differs from the local register.
  pub merge_with_local_sound :
      (mine theirs kept : SignedRegister d)
      → merge_with_local n env mine theirs ≡ ok (some kept)
      → Replaces mine theirs kept
  unfolding merge_with_local
  merge_with_local_sound mine theirs kept h = go (Signed.verified_merge n.codec mine theirs) refl
    where
      go :
          (o : Outcome (Model.Error d) (SignedRegister d))
          → Signed.verified_merge n.codec mine theirs ≡ o
          → Replaces mine theirs kept
      go (err e) q = absurd (ground arith)
      go (ok m) q =
          let chosen = rw q at h in
          let (same, other) = if_other mine m kept (ground arith) in
          let made = merged mine theirs m q in
          record {
            same_base = ground arith;
            differs = λ e. other (sym same ∙ e);
            keeps_ours =
                λ op k. ground (arith, contains-extend n.codec.op_ord op mine.ops theirs.ops);
            takes_theirs =
                λ op k. ground (arith, contains-extend n.codec.op_ord op mine.ops theirs.ops);
          }
