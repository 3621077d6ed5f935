-- ===== src/Usage/Answering/Settled.antt =====
-- What the settlement of an answer's reservation writes.
use mathlib.Core.Option
use devfootnote_project.Base.{
  Bool-cases, Option, Option-cases, arith, inl, inr, is_some, leb, leb→le, none, some, subst, true,
  ℕ, ◌≡◌, ◌≤◌,
}
use devfootnote_project.Usage.Answering.{
  Charge, Priced, TokenUsage, actual_amount, charge, charge_within, close_answer, most, pricing_of,
}
use devfootnote_project.Usage.Schema.{Reservation, reservation_bounds_check, reservation_check}

-- The charge never exceeds the reserved maximum, and its tokens are those of the provider.
pub charge-le :
    (usage : Option TokenUsage) (r : Reservation) {c : Charge}
    → charge usage r ≡ some c
    → c.amount ≤ r.reserved_maximum
unfolding charge
charge-le usage r {c} e = elim (Option-cases (pricing_of usage r)) [
  | inl unpriced ↦
      let eq : most r ≡ c = ground arith in
      subst (λ (x : Charge). x.amount ≤ r.reserved_maximum) eq (most-le r)
  | inr (p, e_p) ↦ within p (actual_amount p) (ground arith)
]
  where
    most-le : (r : Reservation) → (most r).amount ≤ r.reserved_maximum
    most-le r = ground arith

    within :
        (p : Priced) (o : Option ℕ)
        → Option.map (charge_within r p) o ≡ some c
        → c.amount ≤ r.reserved_maximum
    within p none h = cc
    within p (some actual) h =
        let eq : charge_within r p actual ≡ c = ground arith in
        subst (λ (x : Charge). x.amount ≤ r.reserved_maximum) eq
          (elim (Bool-cases (leb actual r.reserved_maximum)) [
            | inl fits ↦ rw fits (leb→le actual r.reserved_maximum fits)
            | inr above ↦ rw above (most-le r)
          ])

-- What the row of a reservation says once it has been closed: the constraints of its settlement and
-- its token counts hold.
pub close_answer-check :
    (usage : Option TokenUsage) (r : Reservation) (c : Charge) (now : ℕ)
    → charge usage r ≡ some c
    → reservation_bounds_check r ≡ true
    → reservation_check (close_answer c now r r) ≡ true
close_answer-check usage r c now e bounds = elim (Bool-cases (is_some r.exposure_started_at)) [
  | inl exposed ↦
      let le = charge-le usage r e in
      elim (Option-cases c.accepted) [
        | inl refused_usage ↦ ground arith
        | inr (t, e_t) ↦ ground arith
      ]
  | inr unexposed ↦ elim (Option-cases c.accepted) [
    | inl refused_usage ↦ ground arith
    | inr (t, e_t) ↦ ground arith
  ]
]
