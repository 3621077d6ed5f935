-- ===== src/Search/Tests.antt =====
-- A preview of a short text, whose graphemes are its units and which is folded to itself.
use devfootnote_project.Base.{
  List, [], arith, length, none, some, suc, take, zero, ℕ, ◌∷◌, ◌≡◌, ◌≤◌,
}
use devfootnote_project.Materials.Schema.{Content}
use devfootnote_project.Search.Snippet.{Unicode, original_offset}
use devfootnote_project.Search.Snippet.Offsets.{Splits, original_offset-Splits}

abbrev plain : Unicode
plain = record { fold = λ text. text; boundary = λ text i. i }

abbrev abc : List ℕ
abc = b'a' ∷ b'b' ∷ b'c' ∷ []

abbrev found_text : Content
found_text = record { title = none; body = abc; note = none; context = none; source_url = none }

length-take_mono : (m k : ℕ) (text : List ℕ) → m ≤ k → length (take m text) ≤ length (take k text)
length-take_mono zero k text le = omega arith
length-take_mono (suc m) zero text le = absurd (omega (arith, le))
length-take_mono (suc m) (suc k) [] le = omega arith
length-take_mono (suc m) (suc k) (u ∷ text) le =
    omega (arith, length-take_mono m k text (omega (arith, le)))

original_offset-Splits_example :
    (o : ℕ) × (original_offset plain abc 1 ≡ some o) × Splits plain abc 1 (length abc) o
original_offset-Splits_example =
    original_offset-Splits plain abc 1 (omega arith) (λ m k le. length-take_mono m k abc le)
