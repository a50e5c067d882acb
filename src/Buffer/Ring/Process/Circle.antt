-- ===== src/Buffer/Ring/Process/Circle.antt =====
-- A forward walk over an interval that goes round the ring.
use ihmc_yovariables_cpp.Common.{
  ℕ, ℤ, pos, ◌+◌, ◌≤◌, ◌<◌, ◌+ℤ◌, add-pos, true, false, Option, some, ◌>>=◌, Option-cases, inl, inr,
  ◌≡◌, ◌≢◌, sym, ap, ◌∙◌, arith, dec_lt, Doubles,
}
use ihmc_yovariables_cpp.Variables.{Variables}
use ihmc_yovariables_cpp.Buffer.Ring.{Buffer, is_at_out_point, is_index_between_bounds, tick_target}
use ihmc_yovariables_cpp.Buffer.Ring.Tick.{
  set_current_index, tick_and_read_from_buffer, goto_in_point,
}
use ihmc_yovariables_cpp.Buffer.Ring.Process.{
  Processor, ended, process_here, forward_step, apply_processor,
}
use ihmc_yovariables_cpp.Buffer.Ring.Process.Forward.{
  Stands, tick_done, set_current_index-Stands, set_current_index-moves, process_here-Stands,
}
use ihmc_yovariables_cpp.Buffer.Ring.Process.Stuck.{apply_processor_stuck}

-- An unlocked ring that stands between its in-point and the end of its array.
abbrev pub IsCircling : {D S : Type 0} → ℕ → ℕ → ℕ → Buffer D S → Type 0
IsCircling a o n b = (i : ℕ) × Stands a o n i b × (a ≤ i) × (i < n)

module _ {D S : Type 0} where
  target_circling :
      (a o n i : ℕ) (b : Buffer D S)
      → o < a
      → a ≤ i
      → i < n
      → Stands a o n i b
      → (j : ℕ) × ((tick_target (pos 1) b).1 ≡ pos j) × (a ≤ j) × (j < n)
  unfolding tick_target is_index_between_bounds
  target_circling a o n i b h k l s =
      let next : b.current_index +ℤ pos 1 ≡ pos (i + 1) = rw s.at_index (add-pos i 1) in
      elim (dec_lt (i + 1) n) [
        | yes lt ↦ (i + 1, ground arith, omega arith, lt)
        | no ge ↦ (a, ground arith, omega arith, omega arith)
      ]

  goes_on_circling :
      (a o n : ℕ) (b : Buffer D S) → o < a → IsCircling a o n b → is_at_out_point b ≡ false
  unfolding is_at_out_point
  goes_on_circling a o n b h (i, s, k, l) = rw (s.at_index, s.at_out) (ground arith)

module _ {D S : Type 0} (d : Doubles D) (vs : Variables D S) (p : Processor S) where
  forward_step-IsCircling :
      (a o n : ℕ) (b c : Buffer D S)
      → o < a
      → IsCircling a o n b
      → forward_step d vs p b ≡ some c
      → IsCircling a o n c
  unfolding forward_step
  forward_step-IsCircling a o n b c h (i, s, k, l) e =
      elim (Option-cases (process_here d vs p b.in_point b.out_point b)) [
        | inl fails ↦ ground (arith, fails)
        | inr (b', done) ↦
            let s' = process_here-Stands d vs p a o n i b.in_point b.out_point b b' s done in
            let (j, at, low, high) = target_circling a o n i b' h k l s' in
            let ticked : (tick_and_read_from_buffer vs (pos 1) b' >>= λ r. some r.1) ≡ some c =
              sym (
                ap
                  (λ (m : Option (Buffer D S)).
                    m >>= λ t. tick_and_read_from_buffer vs (pos 1) t >>= λ r. some r.1)
                  done)
              ∙ e in
            let moved : set_current_index vs (pos j) b' ≡ some c =
              ap (λ t. set_current_index vs t b') (sym at)
              ∙ tick_done vs (pos 1) b' c s'.unlocked ticked in
            (j, set_current_index-moves vs a o n i j b' c high s' moved, low, high)
      ]

  -- A forward processor on an unlocked ring whose in-point is behind its out-point, so that the
  -- interval goes round the end of the ring: with no fuel, however much, does `applyProcessor` end.
  -- The walk jumps from the end of the ring back to the in-point.
  pub apply_processor-circling :
      (a o n fuel : ℕ) (b e : Buffer D S)
      → p.go_forward ≡ true
      → b.in_point ≡ pos a
      → b.out_point ≡ pos o
      → b.buffer_size ≡ pos n
      → b.lock_index ≡ false
      → o < a
      → a < n
      → apply_processor d vs p fuel b ≢ ended e
  unfolding goto_in_point
  apply_processor-circling a o n fuel b e g i u z free h k =
      let b' : Buffer D S = record b { store = p.initialize b.store } in
      apply_processor_stuck d vs p (IsCircling a o n) (λ c s. goes_on_circling a o n c h s)
        (λ c c' s done. forward_step-IsCircling a o n c c' h s done) fuel b e g
        (λ c moved. (
          a,
          set_current_index-Stands vs a o n a b' c k i u z free
              (ap (λ (t : ℤ). set_current_index vs t b') (sym i) ∙ moved),
          omega arith,
          k,
        ))
