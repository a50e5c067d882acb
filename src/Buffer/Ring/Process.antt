-- ===== src/Buffer/Ring/Process.antt =====
-- `applyProcessor` of src/buffer/yo_buffer.cpp: a walk from one end of the interval to the other
-- which hands indices to a processor. A processor's own state is part of the store. Each of the
-- two `while` loops takes fuel, and a run says whether it has ended.
pub mod Forward
pub mod Stuck
pub mod Circle
use ihmc_yovariables_cpp.Common.{
  ℕ, ℤ, pos, negsuc, zero, suc, if◌then◌else◌, Bool, true, false, Option, none, some, ◌>>=◌, ◌≡◌,
  refl, Doubles,
}
use ihmc_yovariables_cpp.Variables.{Variables}
use ihmc_yovariables_cpp.Buffer.Ring.{Buffer, is_at_in_point, is_at_out_point}
use ihmc_yovariables_cpp.Buffer.Ring.Tick.{
  write_into_buffer, tick_and_read_from_buffer, goto_in_point, goto_out_point,
}

-- include/ihmc/yovariables/buffer/interfaces/yo_buffer_processor.h: the interface that a client
-- implements, over the variables' values.
pub record Processor (S : Type 0) : Type 0 where
  pub go_forward : Bool
  pub initialize : S → S
  pub process : ℤ → ℤ → ℤ → S → S

pub data Run {ℓ} (A : Type ℓ) : Type ℓ where
  ended : A → Run A
  faulted : Run A
  running : Run A

abbrev pub run_option {ℓ κ} : {A : Type ℓ} {B : Type κ} → Option A → (A → Run B) → Run B
run_option none f = faulted
run_option (some a) f = f a

abbrev pub ended_option {ℓ} : {A : Type ℓ} → Option A → Run A
ended_option none = faulted
ended_option (some a) = ended a

-- `while (!stop) step`
pub run_until {ℓ} : {A : Type ℓ} → (A → Bool) → (A → Option A) → ℕ → A → Run A
run_until stop step zero a = running
run_until stop step (suc fuel) a = elim (stop a) [
  | true ↦ ended a
  | false ↦ run_option (step a) (run_until stop step fuel)
]

module _ {ℓ} {A : Type ℓ} (stop : A → Bool) (step : A → Option A) (fuel : ℕ) (a : A) where
  pub run_until-stops : stop a ≡ true → run_until stop step (suc fuel) a ≡ ended a
  unfolding run_until
  run_until-stops e = rw (run_until, e) refl

  pub run_until-faults : stop a ≡ false → step a ≡ none → run_until stop step (suc fuel) a ≡ faulted
  unfolding run_until
  run_until-faults e f = rw (run_until, e, f) refl

  pub run_until-steps :
      (b : A)
      → stop a ≡ false
      → step a ≡ some b
      → run_until stop step (suc fuel) a ≡ run_until stop step fuel b
  unfolding run_until
  run_until-steps b e f = rw (run_until, e, f) refl

abbrev pub then_run {ℓ} : {A : Type ℓ} → Run A → (A → Run A) → Run A
then_run (ended a) f = f a
then_run faulted f = faulted
then_run running f = running

module _ {D S : Type 0} (d : Doubles D) (vs : Variables D S) (p : Processor S) where
  -- `processor.process(start, end, currentIndex_); writeIntoBuffer();`
  unfoldable pub process_here : ℤ → ℤ → Buffer D S → Option (Buffer D S)
  process_here start end b =
      write_into_buffer d vs (record b { store = p.process start end b.current_index b.store })

  -- The body of the loops.
  unfoldable pub forward_step : Buffer D S → Option (Buffer D S)
  forward_step b = do
    b' ← process_here b.in_point b.out_point b
    (_, b'') ← tick_and_read_from_buffer vs (pos 1) b'
    some b''

  unfoldable pub backward_step : Buffer D S → Option (Buffer D S)
  backward_step b = do
    b' ← process_here b.out_point b.in_point b
    (_, b'') ← tick_and_read_from_buffer vs (negsuc 0) b'
    some b''

  -- The `fuel` bounds the rounds of the loop.
  unfoldable pub apply_processor : ℕ → Buffer D S → Run (Buffer D S)
  unfolding forward_step backward_step
  apply_processor fuel b =
      let b' = record b { store = p.initialize b.store } in
      if p.go_forward
      then run_option (goto_in_point vs b') (λ c.
        then_run (run_until is_at_out_point forward_step fuel c)
          (λ e. ended_option (forward_step e)))
      else run_option (goto_out_point vs b') (λ c.
        then_run (run_until is_at_in_point backward_step fuel c)
          (λ e. ended_option (backward_step e)))
