-- ===== src/Buffer/KeyPoints/Notify.antt =====
-- What the listeners are told: a listener that starts with the key points and applies every change
-- that it is handed.
use ihmc_yovariables_cpp.Common.{
  ℕ, ℤ, Bool, true, false, not, ◌&&◌, ◌||◌, List, [], ◌∷◌, ◌++◌, map, ◌≡◌, ◌⊎◌, inl, inr, ◌≤ℤ◌,
  eqb_ℤ→eq, length, length-append, ap, refl, sym, ◌∙◌, arith,
}
use ihmc_yovariables_cpp.Buffer.KeyPoints.{
  Handler, Change, Call, call, toggles, adds, removes, trims, clears, listens, enables,
  toggle_key_point, add_key_point, remove_key_point, trim_key_points, toggle_scan, trim_scan,
  appended, inserted, erased,
}
use ihmc_yovariables_cpp.Buffer.KeyPoints.Order.{IsIncreasing}
use ihmc_yovariables_cpp.Buffer.KeyPoints.Lookup.{
  contains, contains-trim_scan, add_scan-ends, remove_scan-ends, toggle_scan-ends,
  add_key_point_adds, remove_key_point_removes, toggle_key_point_flips,
}
use mathlib.Core.List.{append-nil}
use ihmc_yovariables_cpp.Buffer.KeyPoints.Search.{AllBelow}

-- Whether the listener's copy has `x` after a change, given whether it had before.
abbrev pub apply_change : Change → ℤ → Bool → Bool
apply_change c x had =
    (had && not (contains c.removed_key_points x)) || contains c.added_key_points x

abbrev pub apply_changes : List Change → ℤ → Bool → Bool
apply_changes [] x had = had
apply_changes (c ∷ cs) x had = apply_changes cs x (apply_change c x had)

-- Every listener is handed the changes, each change to all of them before the next.
abbrev pub calls : List Change → List ℕ → List (ℕ × Change)
calls [] ls = []
calls (c ∷ cs) ls = map (λ l. (l, c)) ls ++ calls cs ls

-- From `h` to `h'` the listeners were handed changes which take a copy of the key points of `h` to
-- one of the key points of `h'`.
abbrev pub IsReported : Handler → Handler → Type 0
IsReported h h' =
    (cs : List Change) × (h'.log ≡ h.log ++ calls cs h.listeners)
    × ((x : ℤ) → apply_changes cs x (contains h.key_points x) ≡ contains h'.key_points x)

abbrev added : Handler → ℤ → Change
added h b = record {
  was_toggled = false;
  are_key_points_enabled = h.enable_key_points;
  added_key_points = b ∷ [];
  removed_key_points = [];
}

abbrev removed : Handler → List ℤ → Change
removed h ks = record {
  was_toggled = false;
  are_key_points_enabled = h.enable_key_points;
  added_key_points = [];
  removed_key_points = ks;
}

add_cases :
    (b : ℤ) (h : Handler)
    → IsIncreasing h.key_points
    → ((add_key_point b h).1 ≡ h)
      ⊎ ((add_key_point b h).1.log ≡ h.log ++ map (λ l. (l, added h b)) h.listeners)
unfolding add_key_point
add_cases b h v = ground (arith, add_scan-ends b h.key_points v)

add_key_point-IsReported :
    (b : ℤ) (h : Handler) → IsIncreasing h.key_points → IsReported h (add_key_point b h).1
add_key_point-IsReported b h v = elim (add_cases b h v) [
  | inl e ↦ rw e ([], sym (append-nil h.log), λ x. refl)
  | inr e ↦ (
    added h b ∷ [],
    e ∙ ap (λ t. h.log ++ t) (sym (append-nil _)),
    λ x. ground (arith, add_key_point_adds b x h v),
  )
]

remove_cases :
    (b : ℤ) (h : Handler)
    → IsIncreasing h.key_points
    → ((remove_key_point b h).1 ≡ h)
      ⊎ ((remove_key_point b h).1.log ≡ h.log ++ map (λ l. (l, removed h (b ∷ []))) h.listeners)
unfolding remove_key_point
remove_cases b h v = ground (arith, remove_scan-ends b h.key_points v)

remove_key_point-IsReported :
    (b : ℤ) (h : Handler) → IsIncreasing h.key_points → IsReported h (remove_key_point b h).1
remove_key_point-IsReported b h v = elim (remove_cases b h v) [
  | inl e ↦ rw e ([], sym (append-nil h.log), λ x. refl)
  | inr e ↦ (
    removed h (b ∷ []) ∷ [],
    e ∙ ap (λ t. h.log ++ t) (sym (append-nil _)),
    λ x. ground (arith, remove_key_point_removes b x h v),
  )
]

trim_key_points-IsReported : (s e : ℤ) (h : Handler) → IsReported h (trim_key_points s e h)
unfolding trim_key_points
trim_key_points-IsReported s e h = (
  removed h (trim_scan s e h.key_points).1 ∷ [],
  ap (λ t. h.log ++ t) (sym (append-nil _)),
  λ x. ground (arith, contains-trim_scan s e x h.key_points),
)

-- The scan of `toggleKeyPoint` runs off the end only if all key points lie below the index.
toggle_scan-found :
    (b k : ℤ) (ks : List ℤ)
    → contains ks k ≡ true
    → b ≤ℤ k
    → ((toggle_scan b ks).1 ≡ erased) ⊎ ((toggle_scan b ks).1 ≡ inserted)
unfolding toggle_scan
toggle_scan-found b k [] c h = cc
toggle_scan-found b k (j ∷ ks) c h = ground (arith, toggle_scan-found b k ks)

toggle_cases :
    (b k : ℤ) (h : Handler)
    → IsIncreasing h.key_points
    → contains h.key_points k ≡ true
    → b ≤ℤ k
    → ((contains h.key_points b ≡ false)
        × ((toggle_key_point b h).1.log ≡ h.log ++ map (λ l. (l, added h b)) h.listeners))
      ⊎ ((contains h.key_points b ≡ true)
          × ((toggle_key_point b h).1.log
              ≡ h.log ++ map (λ l. (l, removed h (b ∷ []))) h.listeners))
unfolding toggle_key_point
toggle_cases b k h v c le =
    ground (arith, toggle_scan-ends b h.key_points v, toggle_scan-found b k h.key_points c le)

toggle_key_point-IsReported :
    (b k : ℤ) (h : Handler)
    → IsIncreasing h.key_points
    → contains h.key_points k ≡ true
    → b ≤ℤ k
    → IsReported h (toggle_key_point b h).1
toggle_key_point-IsReported b k h v c le = elim (toggle_cases b k h v c le) [
  | inl (n, e) ↦ (
    added h b ∷ [],
    e ∙ ap (λ t. h.log ++ t) (sym (append-nil _)),
    λ x. ground (arith, toggle_key_point_flips b x h v, eqb_ℤ→eq b x),
  )
  | inr (p, e) ↦ (
    removed h (b ∷ []) ∷ [],
    e ∙ ap (λ t. h.log ++ t) (sym (append-nil _)),
    λ x. ground (arith, toggle_key_point_flips b x h v, eqb_ℤ→eq b x),
  )
]

-- The calls after which the listeners know the key points: all but a toggle above every key point.
abbrev pub Tells : Handler → Call → Type 0
Tells h (toggles b) = (k : ℤ) × (contains h.key_points k ≡ true) × (b ≤ℤ k)
Tells h (adds b) = Unit
Tells h (removes b) = Unit
Tells h (trims s e) = Unit
Tells h clears = ⊥
Tells h (listens l) = ⊥
Tells h (enables b) = ⊥

-- On increasing key points, an `addKeyPoint`, a `removeKeyPoint`, a `trimKeyPoints`, and a
-- `toggleKeyPoint` of an index that is not above every key point hand each listener changes which
-- take a copy of the key points from before the call to one from after it.
pub call-IsReported :
    (c : Call) (h : Handler) → IsIncreasing h.key_points → Tells h c → IsReported h (call c h)
unfolding call
call-IsReported (toggles b) h v (k, c, le) = toggle_key_point-IsReported b k h v c le
call-IsReported (adds b) h v t = add_key_point-IsReported b h v
call-IsReported (removes b) h v t = remove_key_point-IsReported b h v
call-IsReported (trims s e) h v t = trim_key_points-IsReported s e h
call-IsReported clears h v t = absurd t
call-IsReported (listens l) h v t = absurd t
call-IsReported (enables b) h v t = absurd t

contains-AllBelow : (b : ℤ) (ks : List ℤ) → AllBelow b ks → contains ks b ≡ false
contains-AllBelow b [] v = refl
contains-AllBelow b (k ∷ ks) v = ground (arith, contains-AllBelow b ks v.1)

toggle_scan-AllBelow :
    (b : ℤ) (ks : List ℤ) → AllBelow b ks → toggle_scan b ks ≡ (ks ++ b ∷ [], appended)
unfolding toggle_scan
toggle_scan-AllBelow b [] v = refl
toggle_scan-AllBelow b (k ∷ ks) v = ground (arith, toggle_scan-AllBelow b ks v.1)

contains-last : (b : ℤ) (ks : List ℤ) → contains (ks ++ b ∷ []) b ≡ true
contains-last b [] = ground arith
contains-last b (k ∷ ks) = ground (arith, contains-last b ks)

toggle_silent :
    (b : ℤ) (h : Handler)
    → AllBelow b h.key_points
    → toggle_key_point b h ≡ (true, record h { key_points = h.key_points ++ b ∷ [] })
unfolding toggle_key_point
toggle_silent b h v = rw (toggle_key_point, toggle_scan-AllBelow b h.key_points v) refl

no_calls :
    (log : List (ℕ × Change)) (cs : List Change) (l : ℕ) (ls : List ℕ)
    → log ≡ log ++ calls cs (l ∷ ls)
    → cs ≡ []
no_calls log [] l ls e = refl
no_calls log (c ∷ cs) l ls e =
    absurd (omega (arith, ap length e, length-append log (calls (c ∷ cs) (l ∷ ls))))

-- A `toggleKeyPoint` of an index above every key point returns true, adds it at the end and does
-- nothing else: no listener is called. Where there is a listener, no changes that the listeners are
-- handed account for the new key point.
pub toggle_key_point-unreported :
    (b : ℤ) (h : Handler) (l : ℕ) (ls : List ℕ)
    → h.listeners ≡ l ∷ ls
    → AllBelow b h.key_points
    → (toggle_key_point b h ≡ (true, record h { key_points = h.key_points ++ b ∷ [] }))
      × ¬ IsReported h (toggle_key_point b h).1
toggle_key_point-unreported b h l ls e v =
    let silent = toggle_silent b h v in
    (
      silent,
      λ (cs, told, copy).
          let same_log : (toggle_key_point b h).1.log ≡ h.log = ap (λ x. x.1.log) silent in
          let none_told : cs ≡ [] = no_calls h.log cs l ls (rw (← e) (sym same_log ∙ told)) in
          let known : contains h.key_points b ≡ contains (toggle_key_point b h).1.key_points b =
            rw none_told at copy b in
          let now : contains (toggle_key_point b h).1.key_points b ≡ true =
            ap (λ x. contains x.1.key_points b) silent ∙ contains-last b h.key_points in
          ground (arith, contains-AllBelow b h.key_points v),
    )
