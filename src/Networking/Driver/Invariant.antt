-- ===== src/Networking/Driver/Invariant.antt =====
-- What holds of the driver between the turns of its loop. `IsSafe` is a handler that keeps it and
-- in which no subtraction of the fetcher goes below zero.
pub mod Handlers
pub mod Commands
pub mod Queries
pub mod Events
use native.Mathlib.Nat.{le_trans}
use safe_network.Base.{
  ℕ, ◌≤◌, ◌<◌, ◌≡◌, refl, arith, List, [], ◌∷◌, ◌++◌, Option, none, some, Bool, true, false, length,
  All, Bool-cases, inl, inr, if◌then◌else◌,
}
use safe_network.Base.Outcome.{Outcome, ok, err}
use safe_network.Networking.RecordStore.{Kademlia}
use safe_network.Networking.RecordStore.Puts.{WellFormed}
use safe_network.Networking.Fetcher.Bounds.{IsValid}
use safe_network.Networking.Quorum.{Peers, PeerRecord, GetRecordResultMap, close_group_size}
use safe_network.Networking.Quorum.Answers.{Represents}
use safe_network.Networking.Driver.{
  Net, SwarmDriver, Env, Handler, run_on, Ran, Effect, DriverError, panicked, NetworkEvent, Answer,
  event, sent, internal_msg_channel_dropped, send_event, send, send_open, and_then, return, fail,
  get, modify, emit, ◌>>=◌, ◌>>◌,
}

module _ {p : Peers} {k : Kademlia} where
  -- The map of a query that is under way counts the votes of some answers.
  abbrev pub Counts : GetRecordResultMap p k → Type 0
  Counts m = (answers : List (PeerRecord p k)) × Represents m answers

module _ {p : Peers} {k : Kademlia} {n : Net p k} where
  pub record IsSound (d : SwarmDriver n) : Type 0 where
    pub store_ok : WellFormed d.store
    pub fetcher_ok : IsValid d.replication_fetcher
    pub queries_ok : All (λ e. Counts e.1.1) d.pending_get_record
    pub dialed_ok : length d.dialed_peers.inner ≤ d.dialed_peers.capacity
    pub group_ok : length d.close_group ≤ 8

  abbrev pub is_panic : DriverError n → Bool
  is_panic panicked = true
  is_panic _ = false

  abbrev pub has_panicked : {A : Type 0} → Outcome (DriverError n) A → Bool
  has_panicked (err e) = is_panic e
  has_panicked (ok a) = false

  -- A handler that keeps the driver sound, and in which the fetcher does not panic.
  pub record IsSafe {A : Type 0} (m : Handler n A) : Type 0 where
    pub keeps : (d : SwarmDriver n) → IsSound d → IsSound (run_on d m).driver
    pub no_panic : (d : SwarmDriver n) → IsSound d → has_panicked (run_on d m).result ≡ false

  pub return-IsSafe : {A : Type 0} (a : A) → IsSafe (return a)
  unfolding return run_on
  return-IsSafe a = record { keeps = λ d s. s; no_panic = λ d s. refl }

  pub emit-IsSafe : (effects : List (Effect n)) → IsSafe (emit effects)
  unfolding emit run_on
  emit-IsSafe effects = record { keeps = λ d s. s; no_panic = λ d s. refl }

  pub send_event-IsSafe : (e : NetworkEvent n) → IsSafe (send_event e)
  unfolding send_event
  send_event-IsSafe e = emit-IsSafe (event e ∷ [])

  pub send-IsSafe : (sender : n.Sender) (a : Answer n) → IsSafe (send sender a)
  unfolding send
  send-IsSafe sender a = emit-IsSafe (sent sender a ∷ [])

  pub get-IsSafe : IsSafe get
  unfolding get run_on
  get-IsSafe = record { keeps = λ d s. s; no_panic = λ d s. refl }

  pub modify-IsSafe :
      (change : SwarmDriver n → SwarmDriver n)
      → ((d : SwarmDriver n) → IsSound d → IsSound (change d))
      → IsSafe (modify change)
  unfolding modify run_on
  modify-IsSafe change h = record { keeps = h; no_panic = λ d s. refl }

  pub fail-IsSafe : {A : Type 0} (e : DriverError n) → is_panic e ≡ false → IsSafe (fail {A = A} e)
  unfolding fail run_on
  fail-IsSafe e h = record { keeps = λ d s. s; no_panic = λ d s. h }

  pub send_open-IsSafe :
      (env : Env n) (sender : n.Sender) (a : Answer n) → IsSafe (send_open env sender a)
  unfolding send_open
  send_open-IsSafe env sender a = elim (Bool-cases (env.is_open sender)) [
    | inl e ↦ rw e (send-IsSafe sender a)
    | inr e ↦ rw e (fail-IsSafe internal_msg_channel_dropped refl)
  ]

  -- What a handler gives, if it gives anything, has a property.
  abbrev pub Gives : {A : Type 0} → (A → Type 0) → Outcome (DriverError n) A → Type 0
  Gives Q (ok a) = Q a
  Gives Q (err e) = Unit

  pub bind_with-IsSafe :
      {A B : Type 0} (Q : A → Type 0) (m : Handler n A) (f : A → Handler n B)
      → IsSafe m
      → ((d : SwarmDriver n) → IsSound d → Gives Q (run_on d m).result)
      → ((a : A) → Q a → IsSafe (f a))
      → IsSafe (m >>= f)
  unfolding ◌>>=◌ run_on and_then
  bind_with-IsSafe {A} {B} Q m f h gives g = record {
    keeps = λ d s.
        (go (run_on d m).result (run_on d m).driver (run_on d m).effects (h.keeps d s)
          (h.no_panic d s) (gives d s)).0;
    no_panic = λ d s.
        (go (run_on d m).result (run_on d m).driver (run_on d m).effects (h.keeps d s)
          (h.no_panic d s) (gives d s)).1;
  }
    where
      go :
          (o : Outcome (DriverError n) A) (e : SwarmDriver n) (es : List (Effect n))
          → IsSound e
          → has_panicked o ≡ false
          → Gives Q o
          → IsSound (and_then o e es f).driver × (has_panicked (and_then o e es f).result ≡ false)
      go (ok a) e es t q r = ((g a r).keeps e t, (g a r).no_panic e t)
      go (err x) e es t q r = (t, q)

  Gives-unit : {A : Type 0} (o : Outcome (DriverError n) A) → Gives (λ a. Unit) o
  Gives-unit (ok a) = tt
  Gives-unit (err e) = tt

  pub bind-IsSafe :
      {A B : Type 0} (m : Handler n A) (f : A → Handler n B)
      → IsSafe m
      → ((a : A) → IsSafe (f a))
      → IsSafe (m >>= f)
  bind-IsSafe m f h g =
      bind_with-IsSafe (λ a. Unit) m f h (λ d s. Gives-unit (run_on d m).result) (λ a u. g a)

  pub then-IsSafe :
      {B : Type 0} (m : Handler n Unit) (next : Handler n B)
      → IsSafe m
      → IsSafe next
      → IsSafe (m >> next)
  unfolding ◌>>◌
  then-IsSafe m next h g = bind-IsSafe m (λ done. next) h (λ done. g)

  pub if-IsSafe :
      {A : Type 0} (b : Bool) (m l : Handler n A)
      → IsSafe m
      → IsSafe l
      → IsSafe (if b then m else l)
  if-IsSafe true m l h g = h
  if-IsSafe false m l h g = g

pub ruleset safe_rules = (
  return-IsSafe, emit-IsSafe, send_event-IsSafe, send-IsSafe, get-IsSafe, send_open-IsSafe,
  bind-IsSafe, then-IsSafe, if-IsSafe,
)
