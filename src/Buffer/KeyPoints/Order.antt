-- ===== src/Buffer/KeyPoints/Order.antt =====
-- The order of the key points.
use ihmc_yovariables_cpp.Common.{ℤ, ◌<ℤ◌, List, [], ◌∷◌, arith}
use ihmc_yovariables_cpp.Buffer.KeyPoints.{
  Handler, toggle_scan, add_scan, remove_scan, trim_scan, toggle_key_point, add_key_point,
  remove_key_point, trim_key_points, Call, toggles, adds, removes, trims, clears, listens, enables,
  call, run, clear, add_listener, enable_key_points, toggle_key_points, empty,
}

-- Every key point of the list lies above `b`.
abbrev pub AllAbove : ℤ → List ℤ → Type 0
AllAbove b [] = Unit {0}
AllAbove b (k ∷ ks) = (b <ℤ k) × AllAbove b ks

abbrev pub IsIncreasing : List ℤ → Type 0
IsIncreasing [] = Unit {0}
IsIncreasing (k ∷ ks) = AllAbove k ks × IsIncreasing ks

pub AllAbove-mono : (a b : ℤ) (ks : List ℤ) → a <ℤ b → AllAbove b ks → AllAbove a ks
AllAbove-mono a b [] h v = tt
AllAbove-mono a b (k ∷ ks) h v = (omega arith, AllAbove-mono a b ks h v.1)

toggle-AllAbove : (a b : ℤ) (ks : List ℤ) → a <ℤ b → AllAbove a ks → AllAbove a (toggle_scan b ks).0
unfolding toggle_scan
toggle-AllAbove a b [] h v = (h, tt)
toggle-AllAbove a b (k ∷ ks) h v = ground (arith, toggle-AllAbove a b ks h v.1)

toggle-IsIncreasing : (b : ℤ) (ks : List ℤ) → IsIncreasing ks → IsIncreasing (toggle_scan b ks).0
unfolding toggle_scan
toggle-IsIncreasing b [] v = (tt, tt)
toggle-IsIncreasing b (k ∷ ks) v =
    ground (arith, toggle-IsIncreasing b ks v.1, toggle-AllAbove k b ks, AllAbove-mono b k ks, v.0)

add-AllAbove : (a b : ℤ) (ks : List ℤ) → a <ℤ b → AllAbove a ks → AllAbove a (add_scan b ks).0
unfolding add_scan
add-AllAbove a b [] h v = (h, tt)
add-AllAbove a b (k ∷ ks) h v = ground (arith, add-AllAbove a b ks h v.1)

add-IsIncreasing : (b : ℤ) (ks : List ℤ) → IsIncreasing ks → IsIncreasing (add_scan b ks).0
unfolding add_scan
add-IsIncreasing b [] v = (tt, tt)
add-IsIncreasing b (k ∷ ks) v =
    ground (arith, add-IsIncreasing b ks v.1, add-AllAbove k b ks, AllAbove-mono b k ks, v.0)

remove-AllAbove : (a b : ℤ) (ks : List ℤ) → AllAbove a ks → AllAbove a (remove_scan b ks).0
unfolding remove_scan
remove-AllAbove a b [] v = tt
remove-AllAbove a b (k ∷ ks) v = ground (arith, remove-AllAbove a b ks v.1)

remove-IsIncreasing : (b : ℤ) (ks : List ℤ) → IsIncreasing ks → IsIncreasing (remove_scan b ks).0
unfolding remove_scan
remove-IsIncreasing b [] v = tt
remove-IsIncreasing b (k ∷ ks) v =
    ground (arith, remove-IsIncreasing b ks v.1, remove-AllAbove k b ks v.0)

trim-AllAbove : (a s e : ℤ) (ks : List ℤ) → AllAbove a ks → AllAbove a (trim_scan s e ks).0
unfolding trim_scan
trim-AllAbove a s e [] v = tt
trim-AllAbove a s e (k ∷ ks) v = ground (arith, trim-AllAbove a s e ks v.1)

trim-IsIncreasing : (s e : ℤ) (ks : List ℤ) → IsIncreasing ks → IsIncreasing (trim_scan s e ks).0
unfolding trim_scan
trim-IsIncreasing s e [] v = tt
trim-IsIncreasing s e (k ∷ ks) v =
    ground (arith, trim-IsIncreasing s e ks v.1, trim-AllAbove k s e ks v.0)

pub toggle_key_point-IsIncreasing :
    (b : ℤ) (h : Handler)
    → IsIncreasing h.key_points
    → IsIncreasing (toggle_key_point b h).1.key_points
unfolding toggle_key_point
toggle_key_point-IsIncreasing b h v = ground (arith, toggle-IsIncreasing b h.key_points v)

pub add_key_point-IsIncreasing :
    (b : ℤ) (h : Handler)
    → IsIncreasing h.key_points
    → IsIncreasing (add_key_point b h).1.key_points
unfolding add_key_point
add_key_point-IsIncreasing b h v = ground (arith, add-IsIncreasing b h.key_points v)

pub remove_key_point-IsIncreasing :
    (b : ℤ) (h : Handler)
    → IsIncreasing h.key_points
    → IsIncreasing (remove_key_point b h).1.key_points
unfolding remove_key_point
remove_key_point-IsIncreasing b h v = ground (arith, remove-IsIncreasing b h.key_points v)

pub trim_key_points-IsIncreasing :
    (s e : ℤ) (h : Handler)
    → IsIncreasing h.key_points
    → IsIncreasing (trim_key_points s e h).key_points
unfolding trim_key_points
trim_key_points-IsIncreasing s e h v = ground (arith, trim-IsIncreasing s e h.key_points v)

run_from-IsIncreasing :
    (cs : List Call) (h : Handler) → IsIncreasing h.key_points → IsIncreasing (run cs h).key_points
unfolding run call clear add_listener toggle_key_points enable_key_points
run_from-IsIncreasing [] h v = v
run_from-IsIncreasing (toggles b ∷ cs) h v =
    run_from-IsIncreasing cs _ (toggle_key_point-IsIncreasing b h v)
run_from-IsIncreasing (adds b ∷ cs) h v =
    run_from-IsIncreasing cs _ (add_key_point-IsIncreasing b h v)
run_from-IsIncreasing (removes b ∷ cs) h v =
    run_from-IsIncreasing cs _ (remove_key_point-IsIncreasing b h v)
run_from-IsIncreasing (trims s e ∷ cs) h v =
    run_from-IsIncreasing cs _ (trim_key_points-IsIncreasing s e h v)
run_from-IsIncreasing (clears ∷ cs) h v = run_from-IsIncreasing cs _ tt
run_from-IsIncreasing (listens l ∷ cs) h v = run_from-IsIncreasing cs (add_listener h l) v
run_from-IsIncreasing (enables b ∷ cs) h v = run_from-IsIncreasing cs _ (ground arith)

-- Whatever calls are made on a new handler, its key points are in strictly increasing order.
pub run-IsIncreasing : (cs : List Call) → IsIncreasing (run cs empty).key_points
unfolding empty
run-IsIncreasing cs = run_from-IsIncreasing cs empty tt
