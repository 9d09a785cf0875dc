-- ===== src/Dynastic/Tests.antt =====
-- A number of chunks that is 128, or set at run time, as heap.hpp has it: 0 stands for the latter.
use allocator_builder.Base.{◌≡◌, refl, none, some}
use allocator_builder.Dynastic.{dynastic_undefined, init, value, set_value}

fixed : (value 128 0 (init 128 0) ≡ 128) × (set_value 128 0 64 (init 128 0) ≡ none)
unfolding value set_value
fixed = (refl, refl)

dynamic : (value 0 0 (init 0 0) ≡ dynastic_undefined) × (set_value 0 0 64 (init 0 0) ≡ some 64)
unfolding init value set_value
dynamic = (refl, refl)
