-- ===== src/Filters/Glitch/Steady.antt =====
-- How long a value has to last before a glitch filter takes it over.
use ihmc_yovariables_cpp.Common.{
  ℕ, ℤ, pos, zero, suc, ◌+◌, ◌≤◌, ◌<◌, add-pos, eqb_ℤ, eqb_ℤ_refl, Bool, true, false, not, List, [],
  ◌∷◌, ◌++◌, replicate, Option, some, ◌>>=◌, ◌≡◌, refl, ap, ◌∙◌, arith, Option-cases, inl, inr,
}
use ihmc_yovariables_cpp.Filters.Glitch.{same_bool, feed}
use ihmc_yovariables_cpp.Filters.Glitch.Switch
use ihmc_yovariables_cpp.Filters.Glitch.Count

-- A filter that shows `v`, has counted `c` and has the window `w`.
abbrev pub switch_at : Bool → ℕ → ℕ → Switch.Filter
switch_at v c w = record { value = v; counter = pos c; window_size = pos w }

same_bool_refl : (v : Bool) → same_bool v v ≡ true
same_bool_refl true = refl
same_bool_refl false = refl

same_bool-not : (v : Bool) → same_bool (not v) v ≡ false
same_bool-not true = refl
same_bool-not false = refl

switch_counts :
    (v : Bool) (c w : ℕ)
    → c + 1 < w
    → w ≤ 2147483647
    → Switch.update (not v) (switch_at v c w) ≡ some (switch_at v (c + 1) w)
unfolding Switch.update Switch.set_value
switch_counts v c w h k = rw (same_bool-not v) (ground (arith, add-pos c 1))

switch_flips :
    (v : Bool) (c w : ℕ)
    → c + 1 ≡ w
    → w ≤ 2147483647
    → Switch.update (not v) (switch_at v c w) ≡ some (switch_at (not v) 0 w)
unfolding Switch.update Switch.set_value
switch_flips v c w h k = rw (same_bool-not v) (ground (arith, add-pos c 1))

switch_resets :
    (v : Bool) (c w : ℕ) → 0 < w → Switch.update v (switch_at v c w) ≡ some (switch_at v 0 w)
unfolding Switch.update Switch.set_value
switch_resets v c w h = rw (same_bool_refl v) (ground arith)

switch_counts_on :
    (v : Bool) (k c n w : ℕ)
    → c + k ≡ n
    → n < w
    → w ≤ 2147483647
    → feed Switch.update (replicate k (not v)) (switch_at v c w) ≡ some (switch_at v n w)
switch_counts_on v zero c n w e h m = ap (λ t. some (switch_at v t w)) (omega arith)
switch_counts_on v (suc k) c n w e h m =
    rw (switch_counts v c w (omega arith) m) (switch_counts_on v k (c + 1) n w (omega arith) h m)

feed-append :
    {A F : Type 0} (update : A → F → Option F) (xs ys : List A) (f : F)
    → feed update (xs ++ ys) f ≡ (feed update xs f >>= feed update ys)
feed-append update [] ys f = refl
feed-append update (x ∷ xs) ys f = elim (Option-cases (update x f)) [
  | inl e ↦ rw e refl
  | inr (g, e) ↦ rw e (feed-append update xs ys g)
]

-- A glitch: fewer updates with the other value than the window, and one with the shown value again,
-- leave a Boolean filter that has counted nothing as it was. No update overflows.
pub glitch_is_filtered :
    (v : Bool) (k w : ℕ)
    → k < w
    → w ≤ 2147483647
    → feed Switch.update (replicate k (not v) ++ v ∷ []) (switch_at v 0 w) ≡ some (switch_at v 0 w)
glitch_is_filtered v k w h m =
    feed-append Switch.update (replicate k (not v)) (v ∷ []) (switch_at v 0 w)
    ∙ rw (switch_counts_on v k 0 k w (omega arith) h m)
        (rw (switch_resets v k w (omega arith)) refl)

-- A change that lasts: as many updates with the other value as the window has make a Boolean filter
-- show it, and not one fewer. No update overflows.
pub change_is_shown :
    (v : Bool) (k w : ℕ)
    → k + 1 ≡ w
    → w ≤ 2147483647
    → (feed Switch.update (replicate k (not v)) (switch_at v 0 w) ≡ some (switch_at v k w))
      × (feed Switch.update (replicate k (not v) ++ not v ∷ []) (switch_at v 0 w)
          ≡ some (switch_at (not v) 0 w))
change_is_shown v k w h m =
    let counted = switch_counts_on v k 0 k w (omega arith) (omega arith) m in
    (
      counted,
      feed-append Switch.update (replicate k (not v)) (not v ∷ []) (switch_at v 0 w)
          ∙ rw counted (rw (switch_flips v k w h m) refl),
    )

-- An integer filter that shows `v`, was updated with `x` last, has counted `c` and has the window `w`.
abbrev pub count_at : ℤ → ℤ → ℕ → ℕ → Count.Filter
count_at v x c w = record { value = v; previous_position = x; counter = pos c; window_size = pos w }

count_counts :
    (v x : ℤ) (c w : ℕ)
    → c + 1 < w
    → w ≤ 2147483647
    → Count.update x (count_at v x c w) ≡ some (count_at v x (c + 1) w)
unfolding Count.update Count.set_value
count_counts v x c w h k = rw (eqb_ℤ_refl x) (ground (arith, add-pos c 1))

count_takes :
    (v x : ℤ) (c w : ℕ)
    → c + 1 ≡ w
    → w ≤ 2147483647
    → Count.update x (count_at v x c w) ≡ some (count_at x x 0 w)
unfolding Count.update Count.set_value
count_takes v x c w h k = rw (eqb_ℤ_refl x) (ground (arith, add-pos c 1))

count_starts :
    (v x y : ℤ) (c w : ℕ)
    → eqb_ℤ x y ≡ false
    → 0 < w
    → Count.update x (count_at v y c w) ≡ some (count_at v x 0 w)
unfolding Count.update Count.set_value
count_starts v x y c w h k = rw h (ground arith)

count_counts_on :
    (v x : ℤ) (k c n w : ℕ)
    → c + k ≡ n
    → n < w
    → w ≤ 2147483647
    → feed Count.update (replicate k x) (count_at v x c w) ≡ some (count_at v x n w)
count_counts_on v x zero c n w e h m = ap (λ t. some (count_at v x t w)) (omega arith)
count_counts_on v x (suc k) c n w e h m =
    rw (count_counts v x c w (omega arith) m) (count_counts_on v x k (c + 1) n w (omega arith) h m)

-- A new value of an integer filter: it is shown after the window's number of repetitions, which are
-- one update more than the window, and not before. No update overflows.
pub repetition_is_shown :
    (v x y : ℤ) (c k w : ℕ)
    → eqb_ℤ x y ≡ false
    → k + 1 ≡ w
    → w ≤ 2147483647
    → (feed Count.update (x ∷ replicate k x) (count_at v y c w) ≡ some (count_at v x k w))
      × (feed Count.update (x ∷ replicate k x ++ x ∷ []) (count_at v y c w)
          ≡ some (count_at x x 0 w))
repetition_is_shown v x y c k w e h m =
    let started = count_starts v x y c w e (omega arith) in
    let counted = count_counts_on v x k 0 k w (omega arith) (omega arith) m in
    (
      rw started counted,
      rw started (
          feed-append Count.update (replicate k x) (x ∷ []) (count_at v x 0 w)
          ∙ rw counted (rw (count_takes v x k w h m) refl)),
    )
