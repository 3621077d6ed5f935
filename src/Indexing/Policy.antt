-- ===== src/Indexing/Policy.antt =====
-- apps/worker/src/modules/indexing/embedding-execution.policy.ts: who holds a work, whether it may
-- go on, and what a failure does to it.
pub mod Fences
use devfootnote_project.Base.{
  Bool, Option, false, holds, if◌then◌else◌, leb, min, none, not, some, suc, true, zero, ℕ, ◌&&◌,
  ◌*◌, ◌==◌, ◌^◌, ◌||◌,
}
use devfootnote_project.Indexing.Schema.{
  CallFailure, Failure, FenceFailure, Outcome, Work, WorkState, access_denied, call, config_changed,
  consent_revoked, failed_finally, final_failed, in_state, invalid_response, lease_expired,
  material_obsolete, max_attempts, obsolete, provider_error, published, rate_limited,
  reservation_expired, reservation_missing, retryable_failed, unknown, unknown_outcome,
}
use devfootnote_project.Usage.Consents.{consent}
use devfootnote_project.Usage.Reservations.{EmbeddingConsent, EmbeddingReservation}

-- A work under its lock, with what the database said of its times.
pub record LockedWork : Type 0 where
  pub work : Work
  pub open work use *
  pub lease_active : Bool
  pub due : Bool

-- `holdsLease`; the code asks it of `leased` and of `calling`.
unfoldable pub holds_lease : LockedWork → ℕ → WorkState → Bool
holds_lease w token state =
    in_state w.work.state state && holds w.work.lease_token token && w.lease_active

abbrev consent_agrees : Work → EmbeddingConsent → Bool
consent_agrees w c =
    c.granted && (c.epoch == w.consent_epoch) && holds c.config_fingerprint w.config_fingerprint

abbrev consent_fence : Work → Option EmbeddingConsent → Bool
consent_fence w none = false
consent_fence w (some c) = consent_agrees w c

abbrev reservation_fence : Work → Option EmbeddingReservation → Option FenceFailure
reservation_fence w none = some reservation_missing
reservation_fence w (some r) =
    if not (r.config_fingerprint == w.config_fingerprint)
      || not (r.consent_epoch == w.consent_epoch)
    then some config_changed
    else if r.active
    then none
    else some reservation_expired

-- `embeddingFenceFailure`: none if the work may go on.
unfoldable pub fence_failure :
    ℕ → Work → Option EmbeddingConsent → Bool → Option EmbeddingReservation → Option FenceFailure
fence_failure configuration w consent has_current_intent reservation =
    if not (configuration == w.config_fingerprint)
    then some config_changed
    else if not (consent_fence w consent)
    then some consent_revoked
    else if not has_current_intent
    then some material_obsolete
    else reservation_fence w reservation

-- The kinds of `EmbeddingProviderError`.
pub data ProviderError : Type 0 where
  request_rejected provider_failed outcome_unknown denied : ProviderError
  not_configured invalid_input bad_response : ProviderError

-- `classifyEmbeddingProviderError`: the failure, and whether another attempt may be made.
unfoldable pub classify_provider_error : ProviderError → CallFailure × Bool
classify_provider_error request_rejected = (rate_limited, false)
classify_provider_error provider_failed = (provider_error, true)
classify_provider_error outcome_unknown = (unknown_outcome, true)
classify_provider_error denied = (access_denied, false)
classify_provider_error not_configured = (provider_error, false)
classify_provider_error invalid_input = (invalid_response, false)
classify_provider_error bad_response = (invalid_response, false)

-- A failed attempt: `EmbeddingCallFailure | 'lease_expired'`.
pub data AttemptFailure : Type 0 where
  call_failed : CallFailure → AttemptFailure
  expired_lease : AttemptFailure

abbrev pub failure_of : AttemptFailure → Failure
failure_of (call_failed f) = call f
failure_of expired_lease = lease_expired

abbrev is_final_failure : AttemptFailure → Bool
is_final_failure (call_failed invalid_response) = true
is_final_failure (call_failed access_denied) = true
is_final_failure _ = false

abbrev is_unknown_failure : AttemptFailure → Bool
is_unknown_failure (call_failed unknown_outcome) = true
is_unknown_failure expired_lease = true
is_unknown_failure _ = false

-- The decision's state is `FINAL_FAILED` or `RETRY_WAIT`.
pub record Decision : Type 0 where
  pub final : Bool
  pub outcome : Outcome

-- `embeddingFailureDecision`
unfoldable pub failure_decision : ℕ → AttemptFailure → Bool → Decision
failure_decision attempt_count failure retryable =
    if not retryable || is_final_failure failure || leb max_attempts attempt_count
    then record {
      final = true;
      outcome = if is_unknown_failure failure then unknown else failed_finally;
    }
    else record {
      final = false;
      outcome = if is_unknown_failure failure then unknown else retryable_failed;
    }

-- `isTerminalWork`
abbrev pub is_terminal : WorkState → Bool
is_terminal published = true
is_terminal final_failed = true
is_terminal obsolete = true
is_terminal _ = false

-- `5_000 * 2 ** (attemptCount - 1)`, at most a minute; at 0 the exponent is -1.
abbrev pub retry_upper_bound : ℕ → ℕ
retry_upper_bound zero = 2500
retry_upper_bound (suc n) = min (5000 * 2 ^ n) 60000

-- `embeddingRetryDelay`; `draw n` is the random number `Math.floor(Math.random() * n)`.
unfoldable pub retry_delay : (ℕ → ℕ) → ℕ → ℕ
retry_delay draw attempt_count = draw (retry_upper_bound attempt_count)
