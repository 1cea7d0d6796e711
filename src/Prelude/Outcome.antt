-- ===== src/Prelude/Outcome.antt =====
-- What a C function of the program does: it returns a value or NULL, or an `assert` fails in it.
-- `stuck` is no behaviour of the program: a loop of the model ran out of fuel.
pub data Outcome {ℓ} (A : Type ℓ) : Type ℓ where
  done : A → Outcome A
  null : Outcome A
  abort : Outcome A
  stuck : Outcome A

-- A NULL result and a failed `assert` end the caller too.
infixl 5 ◌>>=◌
abbrev pub ◌>>=◌ {ℓ κ} : {A : Type ℓ} {B : Type κ} → Outcome A → (A → Outcome B) → Outcome B
done a >>= f = f a
null >>= f = null
abort >>= f = abort
stuck >>= f = stuck
