-- ===== src/Indexing/Policy/Fences.antt =====
-- When a work may not go on, and when a failed attempt is made again.
use devfootnote_project.Base.{
  Bool, Option, ap, arith, false, holds, is_some, ltb, min, none, not, some, suc, true, zero, ℕ,
  ◌&&◌, ◌*◌, ◌<◌, ◌==◌, ◌^◌, ◌≡◌,
}
use devfootnote_project.Indexing.Policy.{
  ProviderError, call_failed, classify_provider_error, failure_decision, fence_failure,
  outcome_unknown, provider_failed, retry_delay,
}
use devfootnote_project.Indexing.Schema.{Work, is_started, max_attempts}
use devfootnote_project.Usage.Consents.{consent}
use devfootnote_project.Usage.Reservations.{EmbeddingConsent, EmbeddingReservation}

pub holds-some : (o : Option ℕ) (n : ℕ) → holds o n ≡ true → o ≡ some n
holds-some none n e = absurd (ground arith)
holds-some (some a) n e = ap some (ground (arith, e))

-- A consent that is not the granted one of the work's epoch fences the work.
pub fenced :
    (configuration : ℕ) (w : Work) (consent : EmbeddingConsent) (has_current_intent : Bool)
    (r : Option EmbeddingReservation)
    → (consent.granted && (consent.epoch == w.consent_epoch)) ≡ false
    → is_some (fence_failure configuration w (some consent) has_current_intent r) ≡ true
unfolding fence_failure
fenced configuration w consent has_current_intent r e = ground arith

-- Nor does a work whose owner has no consent.
pub unconsented :
    (configuration : ℕ) (w : Work) (has_current_intent : Bool) (r : Option EmbeddingReservation)
    → is_some (fence_failure configuration w none has_current_intent r) ≡ true
unfolding fence_failure
unconsented configuration w has_current_intent r = ground arith

-- The errors of the provider after which another attempt makes sense.
abbrev pub is_transient : ProviderError → Bool
is_transient provider_failed = true
is_transient outcome_unknown = true
is_transient _ = false

-- A failed call is tried again exactly when the error is transient and fewer than five attempts
-- have been made, and its attempt does not end as started.
failure_decision-retries :
    (attempt_count : ℕ) (kind : ProviderError)
    → ((failure_decision attempt_count
          (call_failed (classify_provider_error kind).0)
          (classify_provider_error kind).1).final
        ≡ not (is_transient kind && ltb attempt_count max_attempts))
      × (is_started
            (failure_decision attempt_count
              (call_failed (classify_provider_error kind).0)
              (classify_provider_error kind).1).outcome
          ≡ false)
unfolding failure_decision classify_provider_error
failure_decision-retries attempt_count kind = ground arith

two_pow-pos : (n : ℕ) → 0 < 2 ^ n
two_pow-pos zero = omega arith
two_pow-pos (suc n) = ground (arith, two_pow-pos n)

-- The delay before a retry is less than a minute, and less than five seconds doubled with each
-- attempt after the first, when the random numbers are below their bounds.
pub retry_delay-bound :
    (draw : ℕ → ℕ) (n : ℕ)
    → ((k : ℕ) → 0 < k → draw k < k)
    → (retry_delay draw (suc n) < 60000) × (retry_delay draw (suc n) < 5000 * 2 ^ n)
unfolding retry_delay
retry_delay-bound draw n below =
    let drawn = below (min (5000 * 2 ^ n) 60000) (omega (arith, two_pow-pos n)) in
    (omega (arith, drawn), omega (arith, drawn))
