-- ===== src/Base/Outcome.antt =====
-- What a call in the kernel comes to.

-- `assert` and `panic` (lib/print.c) never return: `panic`. A wait for another hart never ends while
-- this hart runs alone: `spin`. A loop that has used up the rounds the model gives it: `out_of_fuel`.
pub data Outcome {ℓ} (A : Type ℓ) : Type ℓ where
  ok : A → Outcome A
  panic : Outcome A
  spin : Outcome A
  out_of_fuel : Outcome A

abbrev pub and_then {ℓ κ} : {A : Type ℓ} {B : Type κ} → Outcome A → (A → Outcome B) → Outcome B
and_then (ok a) f = f a
and_then panic f = panic
and_then spin f = spin
and_then out_of_fuel f = out_of_fuel
