-- ===== src/Tests/MacroExamples.antt =====
-- The iteration over the arguments of a macro, at concrete inputs.
use dstc.Base.{ℕ, ◌≡◌, List, [], ◌∷◌, some, arith}
use dstc.ForEach.{calls, comma_calls, for_each, for_each_elem}
use dstc.ForEach.Laws.{flat, numbered, for_each-flat}

-- `char, [128], char, [512]`
abbrev two_parameters : List (List ℕ × List ℕ)
two_parameters = (b'c' ∷ [], b'1' ∷ b'2' ∷ b'8' ∷ []) ∷ (b'c' ∷ [], b'5' ∷ b'1' ∷ b'2' ∷ []) ∷ []

for_each-flat_example :
    (for_each (flat two_parameters) ≡ some (calls (numbered two_parameters)))
    × (for_each_elem (flat two_parameters) ≡ some (comma_calls (numbered two_parameters)))
for_each-flat_example = for_each-flat two_parameters (omega arith)
