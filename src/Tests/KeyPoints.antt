-- ===== src/Tests/KeyPoints.antt =====
-- Key points on small inputs.
use ihmc_yovariables_cpp.Common.{◌++◌, true, pos, false, List, [], ◌∷◌, ◌≡◌, refl, arith}
use ihmc_yovariables_cpp.Buffer.KeyPoints.{
  Handler, empty, Call, toggles, adds, removes, trims, run, call, toggle_key_point,
}
use ihmc_yovariables_cpp.Buffer.KeyPoints.Order.{IsIncreasing, run-IsIncreasing}
use ihmc_yovariables_cpp.Buffer.KeyPoints.Lookup.{contains, toggle_key_point_flips}
use ihmc_yovariables_cpp.Buffer.KeyPoints.Notify.{
  IsReported, call-IsReported, toggle_key_point-unreported,
}
use ihmc_yovariables_cpp.Tests.Values.{marked}

abbrev points : Handler
points = marked (pos 1 ∷ pos 4 ∷ pos 6 ∷ [])

points-IsIncreasing : IsIncreasing points.key_points
points-IsIncreasing = ((omega arith, (omega arith, tt)), ((omega arith, tt), (tt, tt)))

abbrev script : List Call
script =
    toggles (pos 5) ∷ adds (pos 2) ∷ adds (pos 5) ∷ removes (pos 9) ∷ trims (pos 0) (pos 4) ∷ []

run-IsIncreasing_example : IsIncreasing (run script empty).key_points
run-IsIncreasing_example = run-IsIncreasing script

toggle_key_point_flips_example :
    (contains (toggle_key_point (pos 4) points).1.key_points (pos 4) ≡ false)
    × ((toggle_key_point (pos 4) points).0 ≡ false)
toggle_key_point_flips_example = toggle_key_point_flips (pos 4) (pos 4) points points-IsIncreasing

call-IsReported_example : IsReported points (call (toggles (pos 5)) points)
call-IsReported_example =
    call-IsReported (toggles (pos 5)) points points-IsIncreasing (pos 6, refl, omega arith)

toggle_key_point-unreported_example :
    (toggle_key_point (pos 8) points
      ≡ (true, record points { key_points = points.key_points ++ pos 8 ∷ [] }))
    × ¬ IsReported points (toggle_key_point (pos 8) points).1
toggle_key_point-unreported_example =
    toggle_key_point-unreported (pos 8) points 3 [] refl
      (omega arith, (omega arith, (omega arith, tt)))
