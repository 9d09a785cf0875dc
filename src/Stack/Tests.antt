-- ===== src/Stack/Tests.antt =====
-- Runs of a stack of two cells.
use allocator_builder.Base.{arith, ℕ, ◌≡◌, refl, true, false, List, [], ◌∷◌}
use allocator_builder.Stack.{Stack, push, pop, empty}
use allocator_builder.Stack.Refine.{
  Command, put, take, run, run_list, Represents, bottom, run-Represents,
}

abbrev fresh : Stack ℕ
fresh = record { elements = 0 ∷ 0 ∷ []; used = 0 }

abbrev script : List (Command ℕ)
script = put 5 ∷ put 6 ∷ put 7 ∷ take 0 ∷ take 0 ∷ take 1 ∷ []

run-script :
    run 2 script fresh
    ≡ (true, 5) ∷ (true, 6) ∷ (false, 7) ∷ (true, 6) ∷ (true, 5) ∷ (false, 1) ∷ []
unfolding push pop
run-script = refl

empty-fresh : empty fresh ≡ true
unfolding empty
empty-fresh = refl

fresh-Represents : Represents 2 fresh []
fresh-Represents = record { room = refl; countable = omega arith; holds = bottom }

run-Represents_example : run 2 script fresh ≡ run_list 2 script []
run-Represents_example = run-Represents script fresh-Represents
