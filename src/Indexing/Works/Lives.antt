-- ===== src/Indexing/Works/Lives.antt =====
-- The life of a work: which states may follow which.
use devfootnote_project.Base.{
  Bool, List, [], ap, arith, false, if◌then◌else◌, refl, sym, true, ℕ, ◌&&◌, ◌+◌, ◌==◌, ◌||◌, ◌∙◌,
  ◌∷◌, ◌≡◌,
}
use devfootnote_project.Base.Table.{update}
use devfootnote_project.Indexing.Policy.{is_terminal}
use devfootnote_project.Indexing.Schema.{
  Work, WorkState, calling, final_failed, in_state, leased, obsolete, pending, published,
  retry_wait, state_code,
}

-- The states that may follow a state.
abbrev pub may_follow : WorkState → WorkState → Bool
may_follow pending leased = true
may_follow pending final_failed = true
may_follow pending obsolete = true
may_follow leased pending = true
may_follow leased calling = true
may_follow leased published = true
may_follow leased final_failed = true
may_follow leased obsolete = true
may_follow calling retry_wait = true
may_follow calling published = true
may_follow calling final_failed = true
may_follow calling obsolete = true
may_follow retry_wait pending = true
may_follow retry_wait final_failed = true
may_follow retry_wait obsolete = true
may_follow _ _ = false

-- A row goes to a state that may follow its own, or keeps it; an ended work keeps all that its end
-- recorded; the count of attempts grows by one with each call, and not otherwise.
pub record Progress (old new : Work) : Type 0 where
  pub same_work : new.id ≡ old.id
  pub next : (in_state new.state old.state || may_follow old.state new.state) ≡ true
  pub ended : is_terminal old.state ≡ true → new ≡ old
  pub counted : new.attempt_count ≡ (
      if in_state old.state leased && in_state new.state calling
      then old.attempt_count + 1
      else old.attempt_count)

-- Row by row.
abbrev pub Progresses : List Work → List Work → Type 0
Progresses [] [] = Unit
Progresses (old ∷ olds) (new ∷ news) = Progress old new × Progresses olds news
Progresses _ _ = ⊥

of_code : ℕ → WorkState
of_code n =
    if n == 0
    then pending
    else if n == 1
    then leased
    else if n == 2
    then calling
    else if n == 3
    then retry_wait
    else if n == 4
    then published
    else if n == 5
    then final_failed
    else obsolete

of_code-state_code : (s : WorkState) → of_code (state_code s) ≡ s
unfolding of_code
of_code-state_code pending = refl
of_code-state_code leased = refl
of_code-state_code calling = refl
of_code-state_code retry_wait = refl
of_code-state_code published = refl
of_code-state_code final_failed = refl
of_code-state_code obsolete = refl

pub in_state-eq : (a b : WorkState) → in_state a b ≡ true → b ≡ a
in_state-eq a b e =
    let same_code : state_code b ≡ state_code a = ground (arith, e) in
    sym (of_code-state_code b) ∙ ap of_code same_code ∙ of_code-state_code a

Progress-refl : (w : Work) → Progress w w
Progress-refl w = record {
  same_work = refl;
  next = ground arith;
  ended = λ e. refl;
  counted = ground arith;
}

pub Progresses-refl : (works : List Work) → Progresses works works
Progresses-refl [] = tt
Progresses-refl (w ∷ works) = (Progress-refl w, Progresses-refl works)

-- A step from a state that is not an end.
pub moves :
    (old new : Work)
    → new.id ≡ old.id
    → is_terminal old.state ≡ false
    → (in_state new.state old.state || may_follow old.state new.state) ≡ true
    → new.attempt_count ≡ (
        if in_state old.state leased && in_state new.state calling
        then old.attempt_count + 1
        else old.attempt_count)
    → Progress old new
moves old new same_id running may count = record {
  same_work = same_id;
  next = may;
  ended = λ e. absurd (ground (arith, running, e));
  counted = count;
}

pub Progresses-update :
    (p : Work → Bool) (f : Work → Work) (works : List Work)
    → ((w : Work) → p w ≡ true → Progress w (f w))
    → Progresses works (update p f works)
Progresses-update p f [] h = tt
Progresses-update p f (w ∷ works) h = (go (p w) refl, Progresses-update p f works h)
  where
    go : (b : Bool) → p w ≡ b → Progress w (if b then f w else w)
    go true e = h w e
    go false e = Progress-refl w
