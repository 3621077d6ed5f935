-- ===== src/Search/Snippet/Offsets.antt =====
-- `originalOffset` ends, and finds the last grapheme whose prefix is not folded to more than asked.
use native.Mathlib.Nat.{le_trans}
use devfootnote_project.Base.{
  Bool-cases, List, ap, arith, inl, inr, leb, leb→le, length, ltb, ltb→lt, refl, some, suc, zero, ℕ,
  ◌+◌, ◌/◌, ◌<◌, ◌≡◌, ◌≤◌,
}
use devfootnote_project.Search.Snippet.{Unicode, folded_length, original_offset, search_offset}

module _ (lib : Unicode) (text : List ℕ) (target : ℕ) where
  -- The grapheme at `m` begins where the folded prefix is not longer than the target.
  abbrev pub Fits : ℕ → Type 0
  Fits m = folded_length lib text (lib.boundary text m) ≤ target

  -- The places of the text that fit are those below `k`, and the offset is where the grapheme of the
  -- last of them begins.
  pub record Splits (high offset : ℕ) : Type 0 where
    pub count : ℕ
    pub inside : count ≤ high
    pub below : (m : ℕ) → m < count → Fits m
    pub above : (m : ℕ) → count ≤ m → m < high → ¬ Fits m
    pub at_none : count ≡ 0 → offset ≡ 0
    pub at_last : (j : ℕ) → count ≡ suc j → offset ≡ lib.boundary text j

  -- The loop invariant.
  record Inv (end low high offset : ℕ) : Type 0 where
    ordered : low ≤ high
    inside : high ≤ end
    below : (m : ℕ) → m < low → Fits m
    above : (m : ℕ) → high ≤ m → m < end → ¬ Fits m
    at_none : low ≡ 0 → offset ≡ 0
    at_last : (j : ℕ) → low ≡ suc j → offset ≡ lib.boundary text j

  middle-bounds : (low high : ℕ) → low < high → (low ≤ (low + high) / 2) × ((low + high) / 2 < high)
  middle-bounds low high before = (omega (arith, before), omega (arith, before))

  -- A longer prefix is not folded to a shorter text.
  abbrev pub IsMonotone : Type 0
  IsMonotone =
      (m k : ℕ)
      → m ≤ k
      → folded_length lib text (lib.boundary text m) ≤ folded_length lib text (lib.boundary text k)

  finished : (end low high offset : ℕ) → Inv end low high offset → high ≤ low → Splits end offset
  finished end low high offset inv over = record {
    count = low;
    inside = omega (arith, inv.ordered, inv.inside);
    below = inv.below;
    above = λ m p q. inv.above m (omega (arith, over, p)) q;
    at_none = inv.at_none;
    at_last = inv.at_last;
  }

  module _ (grows : IsMonotone) (end : ℕ) where
    upper-Inv :
        (low high offset middle : ℕ)
        → low ≤ middle
        → middle < high
        → Fits middle
        → Inv end low high offset
        → Inv end (middle + 1) high (lib.boundary text middle)
    upper-Inv low high offset middle from_low before fits inv = record {
      ordered = omega (arith, before);
      inside = inv.inside;
      below = λ m p. le_trans (grows m middle (omega (arith, p))) fits;
      above = inv.above;
      at_none = λ e. absurd (omega (arith, e));
      at_last = λ j e. let eq : middle ≡ j = omega (arith, e) in ap (lib.boundary text) eq;
    }

    lower-Inv :
        (low high offset middle : ℕ)
        → low ≤ middle
        → middle < high
        → ¬ Fits middle
        → Inv end low high offset
        → Inv end low middle offset
    lower-Inv low high offset middle from_low before exceeds_it inv = record {
      ordered = from_low;
      inside = omega (arith, before, inv.inside);
      below = inv.below;
      above = λ m p q fits. exceeds_it (le_trans (grows middle m p) fits);
      at_none = inv.at_none;
      at_last = inv.at_last;
    }

    search_offset-Splits :
        (fuel low high offset : ℕ)
        → high ≤ fuel + low
        → Inv end low high offset
        → (o : ℕ) × (search_offset lib text target fuel low high offset ≡ some o) × Splits end o
    unfolding search_offset
    search_offset-Splits zero low high offset enough inv = (
      offset,
      ground (arith, inv.ordered),
      finished end low high offset inv (omega (arith, enough)),
    )
    search_offset-Splits (suc fuel) low high offset enough inv = elim (Bool-cases (ltb low high)) [
      | inr over ↦ (offset, rw over refl, finished end low high offset inv (ground arith))
      | inl before ↦
          let middle = (low + high) / 2 in
          let lt : low < high = ltb→lt low high before in
          let (from_low, below_high) = middle-bounds low high lt in
          elim (Bool-cases (leb (folded_length lib text (lib.boundary text middle)) target)) [
            | inl fits ↦
                let (o, e, splits) =
                  search_offset-Splits fuel (middle + 1) high (lib.boundary text middle)
                    (omega (arith, enough, from_low))
                    (upper-Inv low high offset middle from_low below_high (leb→le _ _ fits) inv) in
                (o, rw before (rw fits e), splits)
            | inr exceeds_it ↦
                let (o, e, splits) =
                  search_offset-Splits fuel low middle offset (omega (arith, enough, below_high)) (
                    lower-Inv low high offset middle from_low below_high (λ fits. ground arith)
                      inv) in
                (o, rw before (rw exceeds_it e), splits)
          ]
    ]

-- The search of the original offset ends on every text. If a longer prefix of whole graphemes is
-- never folded to a shorter text, then for a target of at least one the places of the text are split
-- at one point: the graphemes of the places before it begin within the target, those of the places
-- behind it do not, and the offset is where the last of the former begins, or 0.
pub original_offset-Splits :
    (lib : Unicode) (text : List ℕ) (target : ℕ)
    → 1 ≤ target
    → IsMonotone lib text target
    → (o : ℕ) × (original_offset lib text target ≡ some o) × Splits lib text target (length text) o
unfolding original_offset
original_offset-Splits lib text target positive grows =
    let (o, e, splits) =
      search_offset-Splits lib text target grows (length text) (length text) 0 (length text) 0
        (omega arith)
        (record {
          ordered = omega arith;
          inside = omega arith;
          below = λ m p. absurd (omega (arith, p));
          above = λ m p q. absurd (omega (arith, p, q));
          at_none = λ e. refl;
          at_last = λ j e. absurd (omega (arith, e));
        }) in
    (o, ground (arith, positive, e), splits)
