-- ===== src/Usage/Timeline/Bounded.antt =====
-- No run of operations commits more of a budget than its limit.
use native.Mathlib.Nat.{le_refl, le_trans}
use devfootnote_project.Base.{List, ℕ, ◌≤◌}
use devfootnote_project.Usage.Answering.Steps.{
  delete_answer_receipt-IsSound, delete_answer_receipt-total, expose_answer-IsSound,
  expose_answer-total, settle_answer-IsSound, settle_answer-total,
}
use devfootnote_project.Usage.Budget.{Period, total}
use devfootnote_project.Usage.Budget.Bounds.{total-antitone}
use devfootnote_project.Usage.Reservations.Settlement.{mark_exposure-total, settle-total}
use devfootnote_project.Usage.Schema.{Reservation}
use devfootnote_project.Usage.Soundness.{
  delete_audit-IsSound, expire_unexposed-IsSound, mark_exposure-IsSound,
  reserve_audit_cleanup-IsSound, settle-IsSound, settle_expired_queries-IsSound,
}
use devfootnote_project.Usage.Timeline.{
  IsBounded, Moment, Reach, Step, admits, deletes_audit, deletes_budgets, drops_receipt, expires,
  exposes, exposes_answer, here, next, puts_off, records, settles, settles_answer, settles_lapsed,
  settles_query, waits,
}
use devfootnote_project.Usage.Timeline.Totals.{
  delete_audit-total, delete_expired_budgets-reservations, expire_unexposed-total,
  record_call-reservations, reserve-IsSound, reserve-bounded, reserve_audit_cleanup-total,
  settle_expired_queries-total, settle_query-step,
}

module _ (utc_month : ℕ → Period) (budget limit : ℕ) where
  later-bound :
      {m : Moment} {t : ℕ} (rows : List Reservation)
      → IsBounded budget limit m
      → m.now ≤ t
      → total budget t rows ≤ total budget t m.ledger.reservations
      → total budget t rows ≤ limit
  later-bound {m} rows h later fewer =
      le_trans fewer (le_trans (total-antitone budget m.ledger.reservations later) h.bounded)

  -- Every step keeps the reservations sound, and keeps what is committed to the budget within the
  -- limit at its own time.
  pub Step-IsBounded :
      {m n : Moment}
      → Step utc_month budget limit m n
      → IsBounded budget limit m
      → IsBounded budget limit n
  Step-IsBounded {m} (waits later) h = record {
    sound = h.sound;
    bounded = later-bound {m = m} m.ledger.reservations h later (le_refl _);
  }
  Step-IsBounded {m} (admits input supply result after later small e) h = record {
    sound = reserve-IsSound utc_month input supply m.ledger result after e h.sound;
    bounded =
        reserve-bounded utc_month input supply m.ledger budget limit m.now result after later small
          e h.bounded;
  }
  Step-IsBounded {m} (exposes owner id {t = t} later) h = record {
    sound = mark_exposure-IsSound owner id t m.ledger h.sound;
    bounded = later-bound {m = m} _ h later (mark_exposure-total budget owner id t m.ledger);
  }
  Step-IsBounded {m} (records owner id attempt tokens after e) h = record {
    sound = rw (record_call-reservations owner id attempt tokens m.ledger e) h.sound;
    bounded = rw (record_call-reservations owner id attempt tokens m.ledger e) h.bounded;
  }
  Step-IsBounded {m} (settles owner id attempts {t = t} after later accounts e) h = record {
    sound = settle-IsSound owner id t attempts m.ledger e h.sound;
    bounded =
        later-bound {m = m} _ h later
          (settle-total budget owner id t t attempts m.ledger h.sound.keyed accounts e);
  }
  Step-IsBounded {m} (settles_query owner id tokens {t = t} current after later exposed e) h =
      let (s, fewer) = settle_query-step budget owner id t tokens m.ledger exposed e h.sound in
      record { sound = s; bounded = later-bound {m = m} _ h later fewer }
  Step-IsBounded {m} (expires n sweep later) h = record {
    sound = expire_unexposed-IsSound n sweep m.ledger h.sound;
    bounded = later-bound {m = m} _ h later (expire_unexposed-total budget n sweep m.ledger);
  }
  Step-IsBounded {m} (settles_lapsed n sweep later) h = record {
    sound = settle_expired_queries-IsSound n sweep m.ledger h.sound;
    bounded = later-bound {m = m} _ h later (settle_expired_queries-total budget n sweep m.ledger);
  }
  Step-IsBounded {m} (puts_off n sweep later) h = record {
    sound = reserve_audit_cleanup-IsSound n sweep m.ledger h.sound;
    bounded =
        later-bound {m = m} _ h later
          (reserve_audit_cleanup-total budget n sweep.written_at sweep m.ledger);
  }
  Step-IsBounded {m} (deletes_audit owner id) h = record {
    sound = delete_audit-IsSound owner id m.ledger h.sound;
    bounded =
        later-bound {m = m} _ h (le_refl _) (delete_audit-total budget owner id m.now m.ledger);
  }
  Step-IsBounded {m} (deletes_budgets n locked {t = t} later) h = record {
    sound = rw (delete_expired_budgets-reservations n locked t m.ledger) h.sound;
    bounded =
        rw (delete_expired_budgets-reservations n locked t m.ledger)
          (later-bound {m = m} m.ledger.reservations h later (le_refl _));
  }
  Step-IsBounded {m} (exposes_answer owner id {t = t} later) h = record {
    sound = expose_answer-IsSound owner id t m.ledger h.sound;
    bounded = later-bound {m = m} _ h later (expose_answer-total budget owner id t m.ledger);
  }
  Step-IsBounded {m} (settles_answer owner id usage {t = t} after later e) h = record {
    sound = settle_answer-IsSound owner id usage t m.ledger e h.sound;
    bounded =
        later-bound {m = m} _ h later
          (settle_answer-total budget owner id usage t m.ledger e h.sound);
  }
  Step-IsBounded {m} (drops_receipt owner id {t = t} later) h = record {
    sound = delete_answer_receipt-IsSound owner id t m.ledger h.sound;
    bounded =
        later-bound {m = m} _ h later (delete_answer_receipt-total budget owner id t m.ledger);
  }

-- From a ledger that is within the limit, no sequence of admissions, exposures, receipts,
-- settlements, sweeps and deletions, in any order and with time passing in between, ever commits
-- more to the budget than the limit, provided that the policies admitted to it allow at most the
-- limit and that costs are settled only after exposure. Every reservation stays within the
-- constraints of the database.
pub Reach-IsBounded :
    (utc_month : ℕ → Period) (budget limit : ℕ) {m n : Moment}
    → IsBounded budget limit m
    → Reach utc_month budget limit m n
    → IsBounded budget limit n
Reach-IsBounded utc_month budget limit h here = h
Reach-IsBounded utc_month budget limit h (next r step) =
    Step-IsBounded utc_month budget limit step (Reach-IsBounded utc_month budget limit h r)
