-- ===== src/Variable/Cell.antt =====
-- The assignment that the types of variables share: `set` writes a value that differs, notifies the
-- listeners if asked to, and says whether it has written.
use ihmc_yovariables_cpp.Common.{
  ℕ, ◌+◌, if◌then◌else◌, Bool, true, false, not, ◌&&◌, ◌≡◌, refl, arith, Bool-cases, inl, inr,
}

-- A value, and the number of calls of `notifyListeners` so far.
pub record Cell {ℓ} (A : Type ℓ) : Type ℓ where
  pub value : A
  pub notified : ℕ

module _ {ℓ} {A : Type ℓ} (same : A → A → Bool) where
  unfoldable pub assign : A → Bool → Cell A → Bool × Cell A
  assign v notify c =
      if not (same c.value v)
      then (true, record { value = v; notified = (if notify then c.notified + 1 else c.notified) })
      else (false, c)

  -- An assignment leaves the value given, under a test that only equal values pass.
  pub assign_lem :
      (v : A) (notify : Bool) (c : Cell A)
      → (same c.value v ≡ true → c.value ≡ v)
      → ((assign v notify c).1.value ≡ v)
        × ((assign v notify c).0 ≡ not (same c.value v))
        × ((assign v notify c).1.notified
            ≡ c.notified + (if not (same c.value v) && notify then 1 else 0))
  unfolding assign
  assign_lem v notify c sound = elim (Bool-cases (same c.value v)) [
    | inl e ↦ rw e (sound e, refl, omega arith)
    | inr e ↦ elim (Bool-cases notify) [
      | inl n ↦ rw (e, n) (refl, refl, refl)
      | inr n ↦ rw (e, n) (refl, refl, omega arith)
    ]
  ]
