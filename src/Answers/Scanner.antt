-- ===== src/Answers/Scanner.antt =====
-- `process` and `sweep` of apps/worker/src/modules/answers/answers.service.ts: a run of the two
-- transactions with the provider's call between them, and the loop over a batch of requests.
pub mod Sweeps
pub mod Lapses
pub mod Expiry
use devfootnote_project.Answers.Completion.{Generated, complete_answer}
use devfootnote_project.Answers.Execution.{Call, start_answer}
use devfootnote_project.Answers.Fences.{Clock, Setup, Tables}
use devfootnote_project.Answers.Requests.{reserve_batch}
use devfootnote_project.Answers.Schema.{AnswerRequest, Answers}
use devfootnote_project.Base.{
  Bool, List, Option, [], false, if◌then◌else◌, none, some, true, ℕ, ◌+◌, ◌∷◌,
}
use devfootnote_project.Usage.Cleanup.{batch}

-- What one run of `process` meets: the identifier of its attempt, and the clock of its two
-- transactions.
pub record Turn : Type 0 where
  pub attempt_id : ℕ
  pub starting : Clock
  pub completing : Clock

-- Whether a run returned, and what it committed. A run that throws keeps what was committed before.
abbrev pub after_start : Tables → Option Tables → Bool × Tables
after_start begun_db none = (false, begun_db)
after_start begun_db (some after) = (true, after)

-- The rest of `process`, once `start` has committed or thrown.
unfoldable pub process_started :
    Setup
    → (Call → Generated)
    → ℕ
    → ℕ
    → Turn
    → Tables
    → Option (Option Call × Tables)
    → Bool × Tables
process_started setup generate owner id turn db none = (false, db)
process_started setup generate owner id turn db (some (none, after)) = (true, after)
process_started setup generate owner id turn db (some (some call, after)) =
    if setup.has_provider
    then after_start after (
        complete_answer setup owner id call.attempt_id (generate call) after.answers.requests
          turn.completing after)
    else (true, after)

-- `process` while no other transaction comes between its own; `generate` is the provider.
unfoldable pub process : Setup → (Call → Generated) → ℕ → ℕ → Turn → Tables → Bool × Tables
process setup generate owner id turn db =
    process_started setup generate owner id turn db
      (start_answer setup owner id turn.attempt_id db.answers.requests turn.starting db)

-- The loop of `sweep`: it stops when the signal is aborted, and an exception leaves it.
unfoldable pub sweep_batch :
    Setup → (Call → Generated) → List ((ℕ × ℕ) × Option Turn) → Tables → Bool × Tables
sweep_batch setup generate [] db = (true, db)
sweep_batch setup generate ((key, none) ∷ rest) db = (true, db)
sweep_batch setup generate (((owner, id), some turn) ∷ rest) db =
    let (returned, after) = process setup generate owner id turn db in
    let others = sweep_batch setup generate rest after in
    if returned then others else (false, after)

-- A turn for each item of the batch, `none` where the signal is found aborted.
pub zip_turns : List (ℕ × ℕ) → (ℕ → Option Turn) → ℕ → List ((ℕ × ℕ) × Option Turn)
zip_turns [] turns n = []
zip_turns (key ∷ keys) turns n = (key, turns n) ∷ zip_turns keys turns (n + 1)

-- The runs of a batch that `reserveBatch` returned, unless it threw.
unfoldable pub sweep_reserved :
    Setup
    → (Call → Generated)
    → (ℕ → Option Turn)
    → Tables
    → Option (List (ℕ × ℕ) × Answers)
    → Bool × Tables
unfolding sweep_batch zip_turns
sweep_reserved setup generate turns db none = (false, db)
sweep_reserved setup generate turns db (some (batch, answers)) =
    sweep_batch setup generate (zip_turns batch turns 0) (record db { answers = answers })

-- `sweep`: whether it returned, and what it committed.
unfoldable pub sweep :
    Setup
    → (Call → Generated)
    → (AnswerRequest → Bool)
    → ℕ
    → ℕ
    → (ℕ → Option Turn)
    → Tables
    → Bool × Tables
sweep setup generate held_elsewhere chosen_at now turns db =
    sweep_reserved setup generate turns db (reserve_batch held_elsewhere chosen_at now db.answers)
