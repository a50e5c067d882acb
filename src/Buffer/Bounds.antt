-- ===== src/Buffer/Bounds.antt =====
-- src/buffer/yo_buffer_bounds.cpp: the least and greatest value of a stretch of a buffer.
pub mod Window
use ihmc_yovariables_cpp.Common.{
  ℕ, ℤ, pos, negsuc, zero, suc, ◌+ℤ◌, ◌-ℤ◌, ◌-◌, ◌+◌, pos_part, neg_part, ltb_ℤ, eqb_ℤ,
  if◌then◌else◌, Bool, ◌&&◌, List, length, Option, none, some, ◌>>=◌, Doubles,
}
use ihmc_yovariables_cpp.Buffer.Array.{get}

pub record Bounds (D : Type 0) : Type 0 where
  pub start_index : ℤ
  pub end_index : ℤ
  pub lower_bound : D
  pub upper_bound : D

module _ {D : Type 0} where
  unfoldable pub with_interval : ℤ → ℤ → Bounds D → Bounds D
  with_interval s e b = record b { start_index = s; end_index = e }

  unfoldable pub with_bounds : D → D → Bounds D → Bounds D
  with_bounds l u b = record b { lower_bound = l; upper_bound = u }

module _ {D : Type 0} (d : Doubles D) where
  -- `YoBufferBounds::EMPTY`
  unfoldable pub empty : Bounds D
  empty = record {
    start_index = negsuc 0;
    end_index = negsuc 0;
    lower_bound = d.infinity;
    upper_bound = d.neg_infinity;
  }

  -- The body of the loops of `computed`.
  unfoldable pub take_in : D → D × D → D × D
  take_in v (l, u) = (if d.lt v l then v else l, if d.lt u v then v else u)

  -- The loops of `computed`: `n` rounds from index `i` on, through the unchecked `buffer[i]`.
  unfoldable pub scan : List D → ℤ → ℕ → D × D → Option (D × D)
  scan buf i zero acc = some acc
  scan buf i (suc n) acc = do v ← get buf i; scan buf (i +ℤ pos 1) n (take_in v acc)

  -- How many rounds `for (int i = a; i < b; i++)` makes.
  abbrev pub rounds : ℤ → ℤ → ℕ
  rounds a b = pos_part b + neg_part a - (pos_part a + neg_part b)

  -- The rounds of the loop from `static_cast<std::size_t>(startIndex)`: none for a negative start.
  abbrev pub rounds_to_end : ℤ → List D → ℕ
  rounds_to_end (pos i) buf = length buf - i
  rounds_to_end (negsuc i) buf = 0

  unfoldable pub scan_interval : ℤ → ℤ → List D → D × D → Option (D × D)
  unfolding scan
  scan_interval s e buf acc =
      if ltb_ℤ s e
      then scan buf s (rounds s e) acc
      else do acc' ← scan buf s (rounds_to_end s buf) acc; scan buf (pos 0) (pos_part e) acc'

  unfoldable pub computed : ℤ → ℤ → List D → Option (Bounds D)
  unfolding scan_interval
  computed s e buf = do
    (l, u) ← scan_interval s e buf (d.infinity, d.neg_infinity)
    some (record { start_index = s; end_index = e; lower_bound = l; upper_bound = u })

  unfoldable pub is_inside_bounds : Bounds D → D → Bool
  is_inside_bounds b v = d.le b.lower_bound v && d.le v b.upper_bound

  -- `std::min(lower, value)` and `std::max(upper, value)` return their first argument on a tie.
  unfoldable pub widened_to_include : D → Bounds D → Bounds D
  unfolding is_inside_bounds
  widened_to_include v b = if is_inside_bounds b v then b else record b {
    lower_bound = if d.lt v b.lower_bound then v else b.lower_bound;
    upper_bound = if d.lt b.upper_bound v then v else b.upper_bound;
  }

  -- `operator==`
  unfoldable pub same_bounds : Bounds D → Bounds D → Bool
  same_bounds a b =
      eqb_ℤ a.start_index b.start_index
      && (eqb_ℤ a.end_index b.end_index
          && (d.eq a.lower_bound b.lower_bound && d.eq a.upper_bound b.upper_bound))
