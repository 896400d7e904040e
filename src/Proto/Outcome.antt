-- ===== src/Proto/Outcome.antt =====
-- What a call of the decoder may do in Rust besides returning a value.

-- `panic` is a Rust panic: a shift or an addition that overflows, or a slice out of range.
-- `stuck` is no Rust behaviour: a loop of the model ran out of fuel.
pub data Outcome {ℓ} (A : Type ℓ) : Type ℓ where
  done : A → Outcome A
  panic : Outcome A
  stuck : Outcome A

infixl 5 ◌>>=◌
abbrev pub ◌>>=◌ {ℓ κ} : {A : Type ℓ} {B : Type κ} → Outcome A → (A → Outcome B) → Outcome B
done a >>= f = f a
panic >>= f = panic
stuck >>= f = stuck
