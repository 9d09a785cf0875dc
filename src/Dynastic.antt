-- ===== src/Dynastic.antt =====
-- alb/internal/dynastic.hpp: a number that is fixed at compile time, or set at run time.
mod Tests
use allocator_builder.Base.{
  ℕ, ◌-◌, ◌≡◌, ◌≢◌, refl, Bool, true, false, Option, none, some, ◌==◌, if◌then◌else◌, eq→==, ne→==,
  word_mod,
}

-- `DynasticOptions`
abbrev pub dynastic_undefined : ℕ
dynastic_undefined = word_mod - 1

abbrev pub dynastic_dynamic_set : ℕ
dynastic_dynamic_set = word_mod - 2

-- The template parameters. The state is `_v`, which only the specialisation for equal parameters has.
module _ (v dynamic_enable_switch : ℕ) where
  pub init : ℕ
  init = dynastic_undefined

  pub value : ℕ → ℕ
  value stored = if v == dynamic_enable_switch then stored else v

  -- `none` where the class has no such member
  pub set_value : ℕ → ℕ → Option ℕ
  set_value w stored = if v == dynamic_enable_switch then some w else none

  -- What was set is read, where it can be set.
  value-set_value :
      (w stored : ℕ) → v ≡ dynamic_enable_switch → (set_value w stored ≡ some w) × (value w ≡ w)
  unfolding value set_value
  value-set_value w stored same = rw (eq→== v dynamic_enable_switch same) (refl, refl)

  -- Elsewhere the number is the parameter, and nothing sets it.
  value_fixed :
      (w stored : ℕ) → v ≢ dynamic_enable_switch → (set_value w stored ≡ none) × (value stored ≡ v)
  unfolding value set_value
  value_fixed w stored other = rw (ne→== v dynamic_enable_switch other) (refl, refl)
