-- ===== src/Buffer/KeyPoints/Lookup.antt =====
-- Which indices are key points after each operation, and which key point a search returns.
use ihmc_yovariables_cpp.Common.{
  ℤ, ◌<ℤ◌, ltb_ℤ, leb_ℤ, eqb_ℤ, eqb_ℤ→eq, if◌then◌else◌, Bool, true, false, not, ◌&&◌, ◌||◌, List,
  [], ◌∷◌, ◌⊎◌, ◌≡◌, ap, refl, ◌∙◌, arith,
}
use ihmc_yovariables_cpp.Buffer.KeyPoints.{
  Handler, toggle_scan, add_scan, remove_scan, trim_scan, toggle_key_point, add_key_point,
  remove_key_point, trim_key_points, erased, inserted, appended, unchanged, outside_interval,
}
use ihmc_yovariables_cpp.Buffer.KeyPoints.Order.{AllAbove, IsIncreasing, AllAbove-mono}

abbrev pub contains : List ℤ → ℤ → Bool
contains [] x = false
contains (k ∷ ks) x = eqb_ℤ k x || contains ks x

-- Below an increasing list nothing is found.
contains-AllAbove : (b : ℤ) (ks : List ℤ) → AllAbove b ks → contains ks b ≡ false
contains-AllAbove b [] v = refl
contains-AllAbove b (k ∷ ks) v = ground (arith, contains-AllAbove b ks v.1)

contains-above : (x b : ℤ) (ks : List ℤ) → AllAbove b ks → eqb_ℤ b x ≡ true → contains ks x ≡ false
contains-above x b [] v e = refl
contains-above x b (k ∷ ks) v e = ground (arith, contains-above x b ks v.1 e)

contains-below : (b k : ℤ) (ks : List ℤ) → AllAbove k ks → b <ℤ k → contains ks b ≡ false
contains-below b k ks v h = contains-AllAbove b ks (AllAbove-mono b k ks h v)

contains-toggle_scan :
    (b x : ℤ) (ks : List ℤ)
    → IsIncreasing ks
    → contains (toggle_scan b ks).0 x ≡ (if eqb_ℤ b x then not (contains ks x) else contains ks x)
unfolding toggle_scan
contains-toggle_scan b x [] v = ground arith
contains-toggle_scan b x (k ∷ ks) v =
    ground
      (arith, contains-toggle_scan b x ks v.1, contains-above x k ks v.0, contains-below x k ks v.0)

contains-add_scan :
    (b x : ℤ) (ks : List ℤ) → contains (add_scan b ks).0 x ≡ (eqb_ℤ b x || contains ks x)
unfolding add_scan
contains-add_scan b x [] = ground arith
contains-add_scan b x (k ∷ ks) = ground (arith, contains-add_scan b x ks)

contains-remove_scan :
    (b x : ℤ) (ks : List ℤ)
    → IsIncreasing ks
    → contains (remove_scan b ks).0 x ≡ (not (eqb_ℤ b x) && contains ks x)
unfolding remove_scan
contains-remove_scan b x [] v = ground arith
contains-remove_scan b x (k ∷ ks) v =
    ground
      (arith, contains-remove_scan b x ks v.1, contains-above x k ks v.0, contains-below x k ks v.0)

pub contains-trim_scan :
    (s e x : ℤ) (ks : List ℤ)
    → (contains (trim_scan s e ks).0 x ≡ (contains ks x && not (outside_interval s e x)))
      × (contains (trim_scan s e ks).1 x ≡ (contains ks x && outside_interval s e x))
unfolding trim_scan
contains-trim_scan s e x [] = (refl, refl)
contains-trim_scan s e x (k ∷ ks) = ground (arith, contains-trim_scan s e x ks, eqb_ℤ→eq k x)

not-outside_interval :
    (s e x : ℤ)
    → not (outside_interval s e x)
      ≡ (if ltb_ℤ s e then leb_ℤ s x && leb_ℤ x e else leb_ℤ s x || leb_ℤ x e)
unfolding outside_interval
not-outside_interval s e x = ground arith

-- How a scan ends, by whether the index was there.
pub toggle_scan-ends :
    (b : ℤ) (ks : List ℤ)
    → IsIncreasing ks
    → ((contains ks b ≡ true) × ((toggle_scan b ks).1 ≡ erased))
      ⊎ ((contains ks b ≡ false) × ((toggle_scan b ks).1 ≡ inserted))
      ⊎ ((contains ks b ≡ false) × ((toggle_scan b ks).1 ≡ appended))
unfolding toggle_scan
toggle_scan-ends b [] v = ground arith
toggle_scan-ends b (k ∷ ks) v = ground (arith, toggle_scan-ends b ks v.1, contains-below b k ks v.0)

pub add_scan-ends :
    (b : ℤ) (ks : List ℤ)
    → IsIncreasing ks
    → ((contains ks b ≡ true) × (add_scan b ks ≡ (ks, unchanged)))
      ⊎ ((contains ks b ≡ false) × ((add_scan b ks).1 ≡ inserted))
      ⊎ ((contains ks b ≡ false) × ((add_scan b ks).1 ≡ appended))
unfolding add_scan
add_scan-ends b [] v = ground arith
add_scan-ends b (k ∷ ks) v = ground (arith, add_scan-ends b ks v.1, contains-below b k ks v.0)

pub remove_scan-ends :
    (b : ℤ) (ks : List ℤ)
    → IsIncreasing ks
    → ((contains ks b ≡ true) × ((remove_scan b ks).1 ≡ erased))
      ⊎ ((contains ks b ≡ false) × (remove_scan b ks ≡ (ks, unchanged)))
unfolding remove_scan
remove_scan-ends b [] v = ground arith
remove_scan-ends b (k ∷ ks) v = ground (arith, remove_scan-ends b ks v.1, contains-below b k ks v.0)

-- On increasing key points, `toggleKeyPoint` flips whether its index is a key point, leaves every
-- other index as it was, and returns whether the index is a key point afterwards.
pub toggle_key_point_flips :
    (b x : ℤ) (h : Handler)
    → IsIncreasing h.key_points
    → let (added, h') = toggle_key_point b h in
      (contains h'.key_points x
        ≡ (if eqb_ℤ b x then not (contains h.key_points x) else contains h.key_points x))
      × (added ≡ not (contains h.key_points b))
unfolding toggle_key_point
toggle_key_point_flips b x h v =
    ground (arith, contains-toggle_scan b x h.key_points v, toggle_scan-ends b h.key_points v)

-- On increasing key points, `addKeyPoint` makes its index a key point and changes no other, and
-- returns true exactly when the index was none before.
pub add_key_point_adds :
    (b x : ℤ) (h : Handler)
    → IsIncreasing h.key_points
    → let (added, h') = add_key_point b h in
      (contains h'.key_points x ≡ (eqb_ℤ b x || contains h.key_points x))
      × (added ≡ not (contains h.key_points b))
unfolding add_key_point
add_key_point_adds b x h v =
    ground (arith, contains-add_scan b x h.key_points, add_scan-ends b h.key_points v)

-- On increasing key points, `removeKeyPoint` makes its index none and changes no other, and returns
-- true exactly when the index was one before.
pub remove_key_point_removes :
    (b x : ℤ) (h : Handler)
    → IsIncreasing h.key_points
    → let (removed, h') = remove_key_point b h in
      (contains h'.key_points x ≡ (not (eqb_ℤ b x) && contains h.key_points x))
      × (removed ≡ contains h.key_points b)
unfolding remove_key_point
remove_key_point_removes b x h v =
    ground (arith, contains-remove_scan b x h.key_points v, remove_scan-ends b h.key_points v)

toggle_scan_above : (b : ℤ) (ks : List ℤ) → AllAbove b ks → (toggle_scan b ks).0 ≡ b ∷ ks
unfolding toggle_scan
toggle_scan_above b [] v = refl
toggle_scan_above b (k ∷ ks) v = ground arith

toggle_scan_twice :
    (b : ℤ) (ks : List ℤ) → IsIncreasing ks → (toggle_scan b (toggle_scan b ks).0).0 ≡ ks
unfolding toggle_scan
toggle_scan_twice b [] v = ground arith
toggle_scan_twice b (k ∷ ks) v =
    ground (arith, toggle_scan_twice b ks v.1, eqb_ℤ→eq k b, toggle_scan_above k ks v.0)

toggle_key_point-scan :
    (b : ℤ) (h : Handler) → (toggle_key_point b h).1.key_points ≡ (toggle_scan b h.key_points).0
unfolding toggle_key_point
toggle_key_point-scan b h = ground arith

-- Toggling an index twice gives increasing key points back, each in its place.
pub toggle_key_point_twice :
    (b : ℤ) (h : Handler)
    → IsIncreasing h.key_points
    → (toggle_key_point b (toggle_key_point b h).1).1.key_points ≡ h.key_points
toggle_key_point_twice b h v = simp toggle_key_point-scan (toggle_scan_twice b h.key_points v)

-- `trimKeyPoints` keeps exactly the key points that its test does not put outside the interval: for
-- a start below the end those in [start, end], else those at or above the start or at or below the
-- end.
pub trim_key_points_keeps :
    (s e x : ℤ) (h : Handler)
    → contains (trim_key_points s e h).key_points x ≡ (
        contains h.key_points x
        && (if ltb_ℤ s e then leb_ℤ s x && leb_ℤ x e else leb_ℤ s x || leb_ℤ x e))
unfolding trim_key_points
trim_key_points_keeps s e x h =
    (contains-trim_scan s e x h.key_points).0
    ∙ ap (λ t. contains h.key_points x && t) (not-outside_interval s e x)
