-- ===== src/Buffer/Array.antt =====
-- `AtomicDoubleArray` of src/buffer/yo_buffer_variable_entry.cpp: an array of fixed length with
-- unchecked access, and the loops that copy one array into another. It is generic in the element:
-- these functions only move values.
pub mod Copy
use ihmc_yovariables_cpp.Common.{
  ℕ, ℤ, pos, negsuc, zero, suc, ◌+◌, ltb, if◌then◌else◌, List, length, get_elem?, set, replicate,
  Option, none, some, ◌>>=◌,
}

module _ {ℓ} {A : Type ℓ} where
  -- A negative length throws.
  unfoldable pub new_array : A → ℤ → Option (List A)
  new_array zero_value (pos n) = some (replicate n zero_value)
  new_array zero_value (negsuc n) = none

  unfoldable pub get : List A → ℤ → Option A
  get xs (pos i) = get_elem? xs i
  get xs (negsuc i) = none

  unfoldable pub set_at : List A → ℤ → A → Option (List A)
  set_at xs (pos i) v = if ltb i (length xs) then some (set xs i v) else none
  set_at xs (negsuc i) v = none

  -- `for (i = lo; …; i++) new->set(dst(i), old->get(src(i)))`, for `n` rounds.
  unfoldable pub copy_loop : List A → (ℕ → ℤ) → (ℕ → ℤ) → ℕ → ℕ → List A → Option (List A)
  copy_loop old src dst lo zero new = some new
  copy_loop old src dst lo (suc n) new = do
    v ← get old (src lo)
    new' ← set_at new (dst lo) v
    copy_loop old src dst (lo + 1) n new'

  -- `for (i = lo; …; i++) new->set(i, v)`, for `n` rounds.
  unfoldable pub fill_loop : A → ℕ → ℕ → List A → Option (List A)
  fill_loop v lo zero new = some new
  fill_loop v lo (suc n) new = do new' ← set_at new (pos lo) v; fill_loop v (lo + 1) n new'
