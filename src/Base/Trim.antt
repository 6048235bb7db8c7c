-- ===== src/Base/Trim.antt =====
-- Trimming twice trims once.
use mathlib.Core.Path.{◌≡◌, refl, ap, ◌∙◌}
use mathlib.Core.Bool.{Bool, true, false, ◌&&◌}
use mathlib.Core.Logic.{inl, inr}
use mathlib.Core.List.{[], ◌∷◌}
use native.Mathlib.Omega.{arith}
use moeen.Base.Tests.{Bool-cases, if◌then◌else◌}
use moeen.Base.Lists.{is_empty}
use moeen.Base.Texts.{Text, is_space, trim, trim_start, trim_end}

trim_end_idem : (cs : Text) → trim_end (trim_end cs) ≡ trim_end cs
unfolding trim_end
trim_end_idem [] = refl
trim_end_idem (c ∷ cs) = elim (Bool-cases (is_space c && is_empty (trim_end cs))) [
  | inl gone ↦ rw gone refl
  | inr stays ↦ rw (stays, trim_end_idem cs, stays) refl
]

-- A text that does not begin with white space.
abbrev starts_dark : Text → Bool
starts_dark [] = true
starts_dark (c ∷ cs) = if is_space c then false else true

trim_start-starts_dark : (cs : Text) → starts_dark (trim_start cs) ≡ true
unfolding trim_start
trim_start-starts_dark [] = refl
trim_start-starts_dark (c ∷ cs) = elim (Bool-cases (is_space c)) [
  | inl space ↦ rw space (trim_start-starts_dark cs)
  | inr dark ↦ rw (dark, dark) refl
]

trim_start-trim_end : (cs : Text) → starts_dark cs ≡ true → trim_start (trim_end cs) ≡ trim_end cs
unfolding trim_start trim_end
trim_start-trim_end [] h = refl
trim_start-trim_end (c ∷ cs) h = elim (Bool-cases (is_space c)) [
  | inl space ↦ absurd (ground (arith, space, h))
  | inr dark ↦ rw (dark, dark) refl
]

pub trim_idem : (cs : Text) → trim (trim cs) ≡ trim cs
unfolding trim
trim_idem cs =
    ap trim_end (trim_start-trim_end (trim_start cs) (trim_start-starts_dark cs))
    ∙ trim_end_idem (trim_start cs)
