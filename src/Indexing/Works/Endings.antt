-- ===== src/Indexing/Works/Endings.antt =====
-- The publication of a work, and the end of an attempt that failed, keep the works and the attempts
-- consistent.
use devfootnote_project.Base.{
  Bool, List, Option-cases, [], arith, false, if◌then◌else◌, inl, inr, length, none, refl, some,
  subst, sym, true, ℕ, ◌==◌, ◌∷◌, ◌≡◌,
}
use devfootnote_project.Base.Keys.{All-key}
use devfootnote_project.Base.Table.{All-first, first, first-holds, select, update}
use devfootnote_project.Indexing.Policy.{LockedWork}
use devfootnote_project.Indexing.Schema.{
  Attempt, Index, Work, calling, in_state, is_started, succeeded, work_check,
}
use devfootnote_project.Indexing.Works.{
  ChunkVector, Transition, attempt_of_lease, closable, close_row, find_work, finish, finish_attempt,
  finishable, publish, publish_attempt, publish_row, publishable, transition_failure,
  transition_outcome,
}
use devfootnote_project.Indexing.Works.Tracking.{
  Consistent, IsConsistent, Tracks, TracksAt, TracksAt-finish, TracksAt-update_other, held_in,
}
use devfootnote_project.Indexing.Works.Transitions.{Consistent-change, work_id}
use devfootnote_project.Materials.Schema.{ChunkRow}

-- The work as it was read under its lock in the same transaction.
abbrev pub IsLocked : LockedWork → Index → Type 0
IsLocked w index = find_work w.work.id index ≡ some w.work

publish_rows :
    (w : LockedWork) (attempt_id now : ℕ) (index : Index) (row : Work)
    → first (publishable w calling now) index.works ≡ some row
    → length (select (finishable w.work.id attempt_id) index.attempts) ≡ 1
    → IsConsistent index
    → Consistent (update (publishable w calling now) (publish_row now) index.works) (
        update (finishable w.work.id attempt_id) (finish_attempt succeeded none now) index.attempts)
publish_rows w attempt_id now index row found only h =
    Consistent-change p (publish_row now) w.work.id index.attempts after row is_publishable
      (λ x e. ground arith)
      (λ t.
        TracksAt-finish row.id q succeeded none now row.lease_token true row.attempt_count
          index.attempts refl (λ a e. ground (arith, is_publishable)) only
          (subst (λ b. TracksAt row.id row.lease_token b row.attempt_count index.attempts)
            (ground (arith, is_publishable)) t))
      (λ x other_id t.
        TracksAt-update_other x.id q succeeded none now x.lease_token (in_state x.state calling)
          x.attempt_count index.attempts (λ a e. ground arith) t)
      index.works found (λ x. refl) (λ x e c. ground arith) h
  where
    p : Work → Bool
    p = publishable w calling now

    q : Attempt → Bool
    q = finishable w.work.id attempt_id

    after : List Attempt
    after = update q (finish_attempt succeeded none now) index.attempts

    is_publishable : publishable w calling now row ≡ true
    is_publishable = first-holds p index.works {x = row} found

-- A publication keeps the works and the attempts consistent.
pub publish-IsConsistent :
    (nonzero : ℕ → Bool) (chunks : List ChunkRow) (w : LockedWork)
    (attempt_id material_id revision_id : ℕ) (vectors : List ChunkVector) (now : ℕ) (index : Index)
    (published_now : Bool) (after : Index)
    → publish nonzero chunks w attempt_id material_id revision_id vectors now index
      ≡ some (published_now, after)
    → IsConsistent index
    → IsConsistent after
unfolding publish publish_attempt
publish-IsConsistent nonzero chunks w attempt_id material_id revision_id vectors now index
      published_now after e h =
    elim (Option-cases (first (publishable w calling now) index.works)) [
      | inl nothing ↦ ground arith
      | inr (row, found) ↦ ground (arith, publish_rows w attempt_id now index row found, h)
    ]

-- No attempt ends as started.
abbrev pub Ends : Transition → Type 0
Ends t = is_started (transition_outcome t) ≡ false

close_row-calling :
    (t : Transition) (now : ℕ) (w : Work) → in_state (close_row t now w).state calling ≡ false
close_row-calling t now w = ground arith

close_row-check :
    (t : Transition) (now : ℕ) (w : Work)
    → work_check w ≡ true
    → work_check (close_row t now w) ≡ true
close_row-check t now w c = ground arith

length-attempt_of_lease :
    (w : LockedWork) (attempts : List Attempt)
    → length (select (attempt_of_lease w) attempts)
      ≡ (if in_state w.work.state calling then held_in w.work.lease_token w.work.id attempts else 0)
unfolding held_in
length-attempt_of_lease w [] = ground arith
length-attempt_of_lease w (a ∷ attempts) = ground (arith, length-attempt_of_lease w attempts)

finish_row :
    (w : LockedWork) (t : Transition) (now : ℕ) (attempts : List Attempt)
    → Ends t
    → Tracks attempts w.work
    → TracksAt w.work.id none false w.work.attempt_count (
        update
          (attempt_of_lease w)
          (finish_attempt (transition_outcome t) (some (transition_failure t)) now)
          attempts)
finish_row w t now attempts ends tracks =
    TracksAt-finish w.work.id (attempt_of_lease w) (transition_outcome t)
      (some (transition_failure t)) now w.work.lease_token (in_state w.work.state calling)
      w.work.attempt_count attempts ends (λ a e. ground arith)
      (ground (arith, length-attempt_of_lease w attempts, tracks.held)) tracks

finish_rows :
    (w : LockedWork) (t : Transition) (live : Bool) (now : ℕ) (index : Index) (row : Work)
    → Ends t
    → IsLocked w index
    → first (closable w live now) index.works ≡ some row
    → IsConsistent index
    → Consistent (update (closable w live now) (close_row t now) index.works) (
        update
          (attempt_of_lease w)
          (finish_attempt (transition_outcome t) (some (transition_failure t)) now)
          index.attempts)
finish_rows w t live now index row ends locked found h =
    Consistent-change p (close_row t now) w.work.id index.attempts after row is_closable
      (λ x e. ground arith)
      (subst (λ x. Tracks index.attempts x → Tracks after (close_row t now x)) same_row closes)
      (λ x other_id tracks.
        TracksAt-update_other x.id (attempt_of_lease w) (transition_outcome t)
          (some (transition_failure t)) now x.lease_token (in_state x.state calling) x.attempt_count
          index.attempts (λ a e. ground arith) tracks)
      index.works found (λ x. refl) (λ x e c. close_row-check t now x c) h
  where
    p : Work → Bool
    p = closable w live now

    after : List Attempt
    after =
        update (attempt_of_lease w)
          (finish_attempt (transition_outcome t) (some (transition_failure t)) now) index.attempts

    is_closable : closable w live now row ≡ true
    is_closable = first-holds p index.works {x = row} found

    same_row : w.work ≡ row
    same_row =
        All-first (λ x. (x.id == w.work.id) ≡ true → x ≡ row) (λ x. x.id == w.work.id) index.works
          {x = w.work}
          (All-key work_id p (λ x. x.id == w.work.id) index.works {r = row}
            (λ x e. ground (arith, is_closable)) h.keyed found)
          locked (ground arith)

    closes : Tracks index.attempts w.work → Tracks after (close_row t now w.work)
    closes tracks =
        subst (λ b. TracksAt w.work.id none b w.work.attempt_count after)
          (sym (close_row-calling t now w.work)) (finish_row w t now index.attempts ends tracks)

-- The end of a work that failed keeps the works and the attempts consistent.
pub finish-IsConsistent :
    (w : LockedWork) (t : Transition) (live : Bool) (now : ℕ) (index : Index)
    → Ends t
    → IsLocked w index
    → IsConsistent index
    → IsConsistent (finish w t live now index).1
unfolding finish
finish-IsConsistent w t live now index ends locked h =
    elim (Option-cases (first (closable w live now) index.works)) [
      | inl nothing ↦ ground arith
      | inr (row, found) ↦ ground (arith, finish_rows w t live now index row ends locked found h)
    ]
