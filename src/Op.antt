-- ===== src/Op.antt =====
-- Stateful operations: a step takes an allocator's state and the memory, and returns its value
-- with both. A `block &` argument is a block that goes in and a block that comes out.
use allocator_builder.Block.{Memory}

abbrev pub Op : Type 0 → Type 0 → Type 0
Op S A = S → Memory → A × S × Memory

infixl 5 ◌>>=◌ ◌>>◌
abbrev pub ◌>>=◌ : {S A B : Type 0} → Op S A → (A → Op S B) → Op S B
◌>>=◌ step f s m = let (a, s', m') = step s m in f a s' m'

abbrev pub ◌>>◌ : {S A B : Type 0} → Op S A → Op S B → Op S B
◌>>◌ step next s m = let (a, s', m') = step s m in next s' m'

abbrev pub pure : {S A : Type 0} → A → Op S A
pure a s m = (a, s, m)

-- A change of the memory alone.
abbrev pub on_memory : {S : Type 0} → (Memory → Memory) → Op S (Unit {0})
on_memory f s m = (tt, s, f m)

-- An operation on one of two base classes, or on a member.
abbrev pub on_first : {S T A : Type 0} → Op S A → Op (S × T) A
on_first step (s, t) m = let (a, s', m') = step s m in (a, (s', t), m')

abbrev pub on_second : {S T A : Type 0} → Op T A → Op (S × T) A
on_second step (s, t) m = let (a, t', m') = step t m in (a, (s, t'), m')
