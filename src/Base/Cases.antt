-- ===== src/Base/Cases.antt =====
-- strings.ToUpper, strings.ToLower and strings.EqualFold. ASCII is written out; the Unicode tables of
-- Go beyond it are parameters.
use Prim.Native.Nat.{ℕ, ◌+◌, ◌-◌}
use mathlib.Core.Bool.{Bool, ◌&&◌}
use mathlib.Core.List.{map}
use cross_border_ecommerce.Base.Tests.{ltb, leb, if◌then◌else◌}
use cross_border_ecommerce.Base.Strings.{Text, text_eq}

pub record CaseTable : Type 0 where
  -- The mappings of the code points from 128 on; `fold_other` picks one member of a folding orbit.
  pub upper_other : ℕ → ℕ
  pub lower_other : ℕ → ℕ
  pub fold_other : ℕ → ℕ

abbrev pub ascii_upper : ℕ → ℕ
ascii_upper c = if leb b'a' c && leb c b'z' then c - 32 else c

abbrev pub ascii_lower : ℕ → ℕ
ascii_lower c = if leb b'A' c && leb c b'Z' then c + 32 else c

unfoldable pub to_upper : CaseTable → Text → Text
to_upper t = map (λ c. if ltb c 128 then ascii_upper c else t.upper_other c)

unfoldable pub to_lower : CaseTable → Text → Text
to_lower t = map (λ c. if ltb c 128 then ascii_lower c else t.lower_other c)

unfoldable pub equal_fold : CaseTable → Text → Text → Bool
equal_fold t a b = text_eq (map fold a) (map fold b)
  where
    fold : ℕ → ℕ
    fold c = if ltb c 128 then ascii_lower c else t.fold_other c

-- The tables of a program that meets ASCII only.
abbrev pub ascii_table : CaseTable
ascii_table = record { upper_other = λ c. c; lower_other = λ c. c; fold_other = λ c. c }
