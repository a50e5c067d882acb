-- ===== src/Buffer/Ring/Process/Forward.antt =====
-- A forward walk over an interval that does not go round the ring.
use ihmc_yovariables_cpp.Common.{
  ℕ, ℤ, pos, zero, suc, ◌+◌, ◌≤◌, ◌<◌, ◌+ℤ◌, Bool, true, false, Option, some, ◌>>=◌, Option-cases,
  Bool-cases, none, require, ◌>>◌, if_true, if_false, inl, inr, ◌≡◌, refl, sym, ap, ◌∙◌, arith,
  add-pos, >>=-some, >>=_assoc, subst, Doubles,
}
use ihmc_yovariables_cpp.Variables.{Variables}
use ihmc_yovariables_cpp.Buffer.Ring.{Buffer, is_at_out_point, is_index_between_bounds, tick_target}
use ihmc_yovariables_cpp.Buffer.Ring.Tick.{
  fits_int, clamp_index, read_entries, read_from_buffer, set_current_index, write_into_buffer,
  tick_and_read_from_buffer, goto_in_point,
}
use ihmc_yovariables_cpp.Buffer.Ring.Process.{
  Processor, Run, run_option, ended_option, then_run, run_until, run_until-stops, run_until-faults,
  run_until-steps, process_here, forward_step, apply_processor,
}

-- An unlocked ring of `n` places that stands at `i`, with its interval [a, o].
pub record Stands {D S : Type 0} (a o n i : ℕ) (b : Buffer D S) : Type 0 where
  pub at_in : b.in_point ≡ pos a
  pub at_out : b.out_point ≡ pos o
  pub of_size : b.buffer_size ≡ pos n
  pub at_index : b.current_index ≡ pos i
  pub unlocked : b.lock_index ≡ false

module _ {D S : Type 0} where
  pub clamp_here :
      (j n : ℕ) (b : Buffer D S)
      → j < n
      → b.buffer_size ≡ pos n
      → clamp_index (pos j) b.buffer_size ≡ pos j
  unfolding clamp_index
  clamp_here j n b h e = rw e (ground arith)

  fits_forward :
      (a o n i : ℕ) (b : Buffer D S)
      → i < n
      → n < 2147483648
      → Stands a o n i b
      → fits_int (b.current_index +ℤ pos 1) ≡ true
  unfolding fits_int
  fits_forward a o n i b h w s =
      let next : b.current_index +ℤ pos 1 ≡ pos (i + 1) = rw s.at_index (add-pos i 1) in
      ground arith

  target_forward :
      (a o n i : ℕ) (b : Buffer D S)
      → a ≤ i
      → i < o
      → o < n
      → Stands a o n i b
      → (tick_target (pos 1) b).1 ≡ pos (i + 1)
  unfolding tick_target is_index_between_bounds
  target_forward a o n i b h k l s =
      let next : b.current_index +ℤ pos 1 ≡ pos (i + 1) = rw s.at_index (add-pos i 1) in
      ground arith

  target_over :
      (a o n : ℕ) (b : Buffer D S)
      → a ≤ o
      → o < n
      → Stands a o n o b
      → (tick_target (pos 1) b).1 ≡ pos a
  unfolding tick_target is_index_between_bounds
  target_over a o n b h k s =
      let next : b.current_index +ℤ pos 1 ≡ pos (o + 1) = rw s.at_index (add-pos o 1) in
      ground arith

module _ {D S : Type 0} (vs : Variables D S) where
  -- A tick of an unlocked ring goes to its target.
  tick_unlocked :
      (step : ℤ) (b : Buffer D S)
      → b.lock_index ≡ false
      → fits_int (b.current_index +ℤ step) ≡ true
      → (tick_and_read_from_buffer vs step b >>= λ r. some r.1)
        ≡ set_current_index vs (tick_target step b).1 b
  unfolding tick_and_read_from_buffer
  tick_unlocked step b free fits =
      let m = set_current_index vs (tick_target step b).1 b in
      ap (λ (t : Option (Bool × Buffer D S)). t >>= λ r. some r.1)
        (if_false _ _ free
          ∙ ap (λ o. require o >> (m >>= λ c. some ((tick_target step b).0, c))) fits)
      ∙ >>=_assoc m (λ c. some ((tick_target step b).0, c)) (λ r. some r.1)
      ∙ >>=-some m

  -- A tick of an unlocked ring that does not fault goes to its target.
  pub tick_done :
      (step : ℤ) (b c : Buffer D S)
      → b.lock_index ≡ false
      → (tick_and_read_from_buffer vs step b >>= λ r. some r.1) ≡ some c
      → set_current_index vs (tick_target step b).1 b ≡ some c
  unfolding tick_and_read_from_buffer
  tick_done step b c free e = elim (Bool-cases (fits_int (b.current_index +ℤ step))) [
    | inl fits ↦ sym (tick_unlocked step b free fits) ∙ e
    | inr over ↦
        let fault : (tick_and_read_from_buffer vs step b >>= λ r. some r.1) ≡ none =
          rw (free, over) refl in
        absurd (cc)
  ]

  pub set_current_index-Stands :
      (a o n j : ℕ) (b c : Buffer D S)
      → j < n
      → b.in_point ≡ pos a
      → b.out_point ≡ pos o
      → b.buffer_size ≡ pos n
      → b.lock_index ≡ false
      → set_current_index vs (pos j) b ≡ some c
      → Stands a o n j c
  unfolding set_current_index read_from_buffer
  set_current_index-Stands a o n j b c h si so sn sl e =
      let m = read_entries vs (clamp_index (pos j) b.buffer_size) b.entries b.store in
      let inside : clamp_index (pos j) b.buffer_size ≡ pos j = clamp_here j n b h sn in ground arith

  pub set_current_index-moves :
      (a o n i j : ℕ) (b c : Buffer D S)
      → j < n
      → Stands a o n i b
      → set_current_index vs (pos j) b ≡ some c
      → Stands a o n j c
  set_current_index-moves a o n i j b c h s =
      set_current_index-Stands a o n j b c h s.at_in s.at_out s.of_size s.unlocked

  tick_forward :
      (a o n i : ℕ) (b : Buffer D S)
      → a ≤ i
      → i < o
      → o < n
      → n < 2147483648
      → Stands a o n i b
      → (tick_and_read_from_buffer vs (pos 1) b >>= λ r. some r.1)
        ≡ set_current_index vs (pos (i + 1)) b
  tick_forward a o n i b h k l w s =
      tick_unlocked (pos 1) b s.unlocked (fits_forward a o n i b (omega arith) w s)
      ∙ ap (λ t. set_current_index vs t b) (target_forward a o n i b h k l s)

  tick_over :
      (a o n : ℕ) (b : Buffer D S)
      → a ≤ o
      → o < n
      → n < 2147483648
      → Stands a o n o b
      → (tick_and_read_from_buffer vs (pos 1) b >>= λ r. some r.1) ≡ set_current_index vs (pos a) b
  tick_over a o n b h k w s =
      tick_unlocked (pos 1) b s.unlocked (fits_forward a o n o b k w s)
      ∙ ap (λ t. set_current_index vs t b) (target_over a o n b h k s)

module _ {D S : Type 0} (d : Doubles D) (vs : Variables D S) (p : Processor S) where
  pub process_here-Stands :
      (a o n i : ℕ) (x y : ℤ) (b c : Buffer D S)
      → Stands a o n i b
      → process_here d vs p x y b ≡ some c
      → Stands a o n i c
  unfolding process_here write_into_buffer
  process_here-Stands a o n i x y b c s e = ground arith

  -- What a forward walk is to do: at each of `k` indices from `i` on, in order, move there, read the
  -- variables, hand them to the processor and record them.
  abbrev pub visit : ℕ → ℕ → Buffer D S → Option (Buffer D S)
  visit i zero b = some b
  visit i (suc k) b = set_current_index vs (pos i) b >>= λ c.
      process_here d vs p c.in_point c.out_point c >>= λ c'. visit (i + 1) k c'

  finish :
      (a o n : ℕ) (b : Buffer D S)
      → a ≤ o
      → o < n
      → n < 2147483648
      → Stands a o n o b
      → forward_step d vs p b
        ≡ (process_here d vs p b.in_point b.out_point b >>= set_current_index vs (pos a))
  unfolding forward_step
  finish a o n b h k w s = elim (Option-cases (process_here d vs p b.in_point b.out_point b)) [
    | inl e ↦ rw e refl
    | inr (c, e) ↦
        rw e
          (tick_over vs a o n c h k w (process_here-Stands a o n o b.in_point b.out_point b c s e))
  ]

  -- One round of the loop before the out-point.
  forward_round :
      (a o n i : ℕ) (b : Buffer D S)
      → a ≤ i
      → i < o
      → o < n
      → n < 2147483648
      → Stands a o n i b
      → forward_step d vs p b
        ≡ (process_here d vs p b.in_point b.out_point b >>= set_current_index vs (pos (i + 1)))
  unfolding forward_step
  forward_round a o n i b h k l w s =
      elim (Option-cases (process_here d vs p b.in_point b.out_point b)) [
        | inl e ↦ rw e refl
        | inr (c, e) ↦ rw e (
            tick_forward vs a o n i c h k l w
              (process_here-Stands a o n i b.in_point b.out_point b c s e))
      ]

  stops : (a n i : ℕ) (b : Buffer D S) → Stands a i n i b → is_at_out_point b ≡ true
  unfolding is_at_out_point
  stops a n i b s = rw (s.at_index, s.at_out) (ground arith)

  goes_on : (a o n i : ℕ) (b : Buffer D S) → i < o → Stands a o n i b → is_at_out_point b ≡ false
  unfolding is_at_out_point
  goes_on a o n i b h s = rw (s.at_index, s.at_out) (ground arith)

  abbrev step : Buffer D S → Option (Buffer D S)
  step = forward_step d vs p

  -- The pass after the loop.
  abbrev last : Buffer D S → Run (Buffer D S)
  last e = ended_option (forward_step d vs p e)

  abbrev walk : ℕ → Buffer D S → Run (Buffer D S)
  walk fuel b = then_run (run_until is_at_out_point step fuel b) last

  -- The loop, from where it stands at `i`, with `k` indices to go.
  loop_visits :
      (a o n k i fuel : ℕ) (b : Buffer D S)
      → a ≤ i
      → i + k ≡ o
      → o < n
      → k < fuel
      → n < 2147483648
      → Stands a o n i b
      → walk fuel b
        ≡ ended_option (
            process_here d vs p b.in_point b.out_point b >>= λ c.
            visit (i + 1) k c >>= set_current_index vs (pos a))
  loop_visits a o n k i zero b h e l f w s = absurd (omega arith)
  loop_visits a o n zero i (suc fuel) b h e l f w s =
      let here : Stands a o n o b =
        subst (λ t. Stands a o n t b) (let at : i ≡ o = omega arith in at) s in
      ap (λ r. then_run r last) (run_until-stops is_at_out_point step fuel b (stops a n o b here))
      ∙ ap ended_option (finish a o n b (omega arith) l w here)
  loop_visits a o n (suc k) i (suc fuel) b h e l f w s =
      let turn = forward_round a o n i b h (omega arith) l w s in
      let on = goes_on a o n i b (omega arith) s in
      elim (Option-cases (process_here d vs p b.in_point b.out_point b)) [
        | inl fails ↦
            ap (λ r. then_run r last)
              (run_until-faults is_at_out_point step fuel b on (turn ∙ rw fails refl))
            ∙ rw fails refl
        | inr (c, done) ↦ elim (Option-cases (set_current_index vs (pos (i + 1)) c)) [
          | inl fails ↦
              ap (λ r. then_run r last)
                (run_until-faults is_at_out_point step fuel b on (turn ∙ rw done fails))
              ∙ rw done (rw fails refl)
          | inr (b', moved) ↦
              ap (λ r. then_run r last)
                (run_until-steps is_at_out_point step fuel b b' on (turn ∙ rw done moved))
              ∙ loop_visits a o n k (i + 1) fuel b' (omega arith) (omega arith) l (omega arith) w (
                  set_current_index-moves vs a o n i (i + 1) c b' (omega arith)
                    (process_here-Stands a o n i b.in_point b.out_point b c s done) moved)
              ∙ rw done (
                  rw moved (
                    ap ended_option (
                      sym (
                        >>=_assoc (process_here d vs p b'.in_point b'.out_point b')
                          (visit (i + 1 + 1) k) (set_current_index vs (pos a))))))
        ]
      ]

  -- A forward processor, on an unlocked ring of `n` places, a number that fits an `int`, whose
  -- in-point `a` is not behind its out-point `a + k`: with fuel above `k` its loop ends, or faults where a visit faults. What has
  -- happened then is exactly a visit to each index from `a` to `a + k`, once and in order, and a
  -- move back to the in-point.
  pub apply_processor-visits :
      (a k n fuel : ℕ) (b : Buffer D S)
      → p.go_forward ≡ true
      → b.in_point ≡ pos a
      → b.out_point ≡ pos (a + k)
      → b.buffer_size ≡ pos n
      → b.lock_index ≡ false
      → a + k < n
      → n < 2147483648
      → k < fuel
      → apply_processor d vs p fuel b
        ≡ ended_option (
            visit a (suc k) (record b { store = p.initialize b.store })
            >>= set_current_index vs (pos a))
  unfolding apply_processor goto_in_point
  apply_processor-visits a k n fuel b g i o z u h w f =
      let b' : Buffer D S = record b { store = p.initialize b.store } in
      if_true _ _ g
      ∙ ap (λ (t : ℤ). run_option (set_current_index vs t b') (walk fuel)) i
      ∙ elim (Option-cases (set_current_index vs (pos a) b')) [
        | inl fails ↦ rw fails refl
        | inr (c, moved) ↦
            ap (λ (m : Option (Buffer D S)). run_option m (walk fuel)) moved
            ∙ loop_visits a (a + k) n k a fuel c (omega arith) refl h f w
                (set_current_index-Stands vs a (a + k) n a b' c (omega arith) i o z u moved)
            ∙ ap ended_option (
                sym (
                  >>=_assoc (process_here d vs p c.in_point c.out_point c) (visit (a + 1) k)
                    (set_current_index vs (pos a))))
            ∙ sym (
                ap
                  (λ (m : Option (Buffer D S)). ended_option (
                    (m >>= λ c.
                    process_here d vs p c.in_point c.out_point c >>= λ c'. visit (a + 1) k c')
                    >>= set_current_index vs (pos a)))
                  moved)
      ]
