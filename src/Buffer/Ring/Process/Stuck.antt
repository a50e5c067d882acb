-- ===== src/Buffer/Ring/Process/Stuck.antt =====
-- Walks that stay in states which keep them from their end, as along a locked ring.
use ihmc_yovariables_cpp.Common.{
  ℕ, ℤ, zero, suc, true, false, Option, some, Option-cases, if_true, inl, inr, ◌≡◌, ◌≢◌, refl, sym,
  ap, ◌∙◌, subst, eq_of_some, arith, Doubles,
}
use ihmc_yovariables_cpp.Variables.{Variables}
use ihmc_yovariables_cpp.Buffer.Ring.{Buffer, is_at_out_point}
use ihmc_yovariables_cpp.Buffer.Ring.Tick.{
  set_current_index, write_into_buffer, tick_and_read_from_buffer, goto_in_point,
}
use ihmc_yovariables_cpp.Buffer.Ring.Process.{
  Processor, Run, ended, faulted, running, run_option, ended_option, then_run, run_until,
  run_until-faults, run_until-steps, process_here, forward_step, apply_processor,
}

-- A locked ring that does not stand at its out-point.
abbrev pub IsStuck : {D S : Type 0} → Buffer D S → Type 0
IsStuck b = (b.lock_index ≡ true) × (is_at_out_point b ≡ false)

running_ne : {A : Type 0} (a : A) → ◌≡◌ {A = Run A} running (ended a) → ⊥
running_ne a h = cc

faulted_ne : {A : Type 0} (a : A) → ◌≡◌ {A = Run A} faulted (ended a) → ⊥
faulted_ne a h = cc

then_run-ended :
    {A : Type 0} (r : Run A) (f : A → Run A) (a : A)
    → then_run r f ≡ ended a
    → (c : A) × (r ≡ ended c)
then_run-ended (ended c) f a h = (c, refl)
then_run-ended faulted f a h = absurd (faulted_ne a h)
then_run-ended running f a h = absurd (running_ne a h)

module _ {D S : Type 0} (d : Doubles D) (vs : Variables D S) (p : Processor S) where
  process_here-IsStuck :
      (x y : ℤ) (b c : Buffer D S) → IsStuck b → process_here d vs p x y b ≡ some c → IsStuck c
  unfolding process_here write_into_buffer is_at_out_point
  process_here-IsStuck x y b c s e = ground arith

  forward_step-IsStuck : (b c : Buffer D S) → IsStuck b → forward_step d vs p b ≡ some c → IsStuck c
  unfolding forward_step tick_and_read_from_buffer
  forward_step-IsStuck b c s e =
      elim (Option-cases (process_here d vs p b.in_point b.out_point b)) [
        | inl fails ↦ ground (arith, fails)
        | inr (b', done) ↦
            let stuck = process_here-IsStuck b.in_point b.out_point b b' s done in
            ground (arith, done, stuck.0, stuck.1)
      ]

  -- A loop ends in no state that keeps it from its end.
  pub run_until_stuck :
      (P : Buffer D S → Type 0)
      → ((b : Buffer D S) → P b → is_at_out_point b ≡ false)
      → ((b c : Buffer D S) → P b → forward_step d vs p b ≡ some c → P c)
      → (fuel : ℕ) (b e : Buffer D S) → P b
      → run_until is_at_out_point (forward_step d vs p) fuel b ≢ ended e
  unfolding run_until
  run_until_stuck P goes stays zero b e s h = running_ne e h
  run_until_stuck P goes stays (suc fuel) b e s h = elim (Option-cases (forward_step d vs p b)) [
    | inl fails ↦
        faulted_ne e
          (sym (run_until-faults is_at_out_point (forward_step d vs p) fuel b (goes b s) fails) ∙ h)
    | inr (c, done) ↦
        run_until_stuck P goes stays fuel c e (stays b c s done)
          (sym (run_until-steps is_at_out_point (forward_step d vs p) fuel b c (goes b s) done) ∙ h)
  ]

  -- So `applyProcessor` does not end where the move to the in-point leads to such a state.
  pub apply_processor_stuck :
      (P : Buffer D S → Type 0)
      → ((b : Buffer D S) → P b → is_at_out_point b ≡ false)
      → ((b c : Buffer D S) → P b → forward_step d vs p b ≡ some c → P c)
      → (fuel : ℕ) (b e : Buffer D S) → p.go_forward ≡ true
      → ((c : Buffer D S)
          → goto_in_point vs (record b { store = p.initialize b.store }) ≡ some c
          → P c)
      → apply_processor d vs p fuel b ≢ ended e
  unfolding apply_processor
  apply_processor_stuck P goes stays fuel b e g start h =
      let last : Buffer D S → Run (Buffer D S) = λ c. ended_option (forward_step d vs p c) in
      let walk : Buffer D S → Run (Buffer D S) =
        λ c. then_run (run_until is_at_out_point (forward_step d vs p) fuel c) last in
      let m = goto_in_point vs (record b { store = p.initialize b.store }) in
      let run : run_option m walk ≡ ended e = sym (if_true _ _ g) ∙ h in
      elim (Option-cases m) [
        | inl fails ↦
            faulted_ne e (sym (ap (λ (m : Option (Buffer D S)). run_option m walk) fails) ∙ run)
        | inr (c, moved) ↦
            let walked = sym (ap (λ (m : Option (Buffer D S)). run_option m walk) moved) ∙ run in
            let (c', done) =
              then_run-ended (run_until is_at_out_point (forward_step d vs p) fuel c) last e
                walked in
            run_until_stuck P goes stays fuel c c' (start c moved) done
      ]

  stored-IsStuck : (b : Buffer D S) (t : S) → IsStuck b → IsStuck (record b { store = t })
  unfolding is_at_out_point
  stored-IsStuck b t s = s

  -- A forward processor on a locked ring that does not stand at its out-point: with no fuel, however
  -- much, does `applyProcessor` end.
  pub apply_processor-unending :
      (fuel : ℕ) (b e : Buffer D S)
      → p.go_forward ≡ true
      → IsStuck b
      → apply_processor d vs p fuel b ≢ ended e
  unfolding goto_in_point set_current_index
  apply_processor-unending fuel b e g s =
      let b' : Buffer D S = record b { store = p.initialize b.store } in
      apply_processor_stuck IsStuck (λ c t. t.1) forward_step-IsStuck fuel b e g
        (λ c moved.
          subst IsStuck (eq_of_some (sym (if_true _ _ s.0) ∙ moved))
            (stored-IsStuck b (p.initialize b.store) s))
