-- ===== src/Buffer/Ring/Tick.antt =====
-- src/buffer/yo_buffer.cpp: reading, writing and moving along the ring.
use ihmc_yovariables_cpp.Common.{
  ℤ, pos, negsuc, ◌+ℤ◌, ◌-ℤ◌, ◌&&◌, require, ltb_ℤ, leb_ℤ, if◌then◌else◌, Bool, false, List, [],
  ◌∷◌, Option, some, ◌>>=◌, ◌>>◌, map_all, Doubles,
}
use ihmc_yovariables_cpp.Variables.{Variables}
use ihmc_yovariables_cpp.Buffer.Entry
use ihmc_yovariables_cpp.Buffer.Entry.{
  Entry, size, rem_size, compute_buffer_size_after_crop, compute_buffer_size_after_cut,
}
use ihmc_yovariables_cpp.Buffer.Ring.{Buffer, notify_index_changed_listeners, tick_target, advance}

-- The values of a 32-bit `int`.
unfoldable pub fits_int : ℤ → Bool
fits_int i = ltb_ℤ i (pos 2147483648) && leb_ℤ (negsuc 2147483647) i

-- The index that `setCurrentIndex` moves to.
unfoldable pub clamp_index : ℤ → ℤ → ℤ
clamp_index i n = if leb_ℤ n i then pos 0 else if ltb_ℤ i (pos 0) then n -ℤ pos 1 else i

module _ {D S : Type 0} (vs : Variables D S) where
  -- `readFromBuffer`: each entry in turn sets its variable.
  unfoldable pub read_entries : ℤ → List (Entry D) → S → Option S
  read_entries i [] s = some s
  read_entries i (e ∷ es) s = do s' ← Entry.read_from_buffer_at vs i e s; read_entries i es s'

  unfoldable pub read_from_buffer : Buffer D S → Option (Buffer D S)
  unfolding read_entries
  read_from_buffer b = do
    s ← read_entries b.current_index b.entries b.store
    some (record b { store = s })

  unfoldable pub set_current_index : ℤ → Buffer D S → Option (Buffer D S)
  unfolding clamp_index notify_index_changed_listeners
  set_current_index i b = if b.lock_index then some b else do
    b' ← read_from_buffer (record b { current_index = clamp_index i b.buffer_size })
    some (notify_index_changed_listeners b')

  unfoldable pub goto_in_point : Buffer D S → Option (Buffer D S)
  goto_in_point b = set_current_index b.in_point b

  unfoldable pub goto_out_point : Buffer D S → Option (Buffer D S)
  goto_out_point b = set_current_index b.out_point b

  -- A sum that overflows is a fault.
  unfoldable pub tick_and_read_from_buffer : ℤ → Buffer D S → Option (Bool × Buffer D S)
  unfolding tick_target
  tick_and_read_from_buffer step b = if b.lock_index then some (false, b) else do
    require (fits_int (b.current_index +ℤ step))
    let (rolled_over, target) = tick_target step b
    b' ← set_current_index target b
    some (rolled_over, b')

module _ {D S : Type 0} (d : Doubles D) (vs : Variables D S) where
  unfoldable pub write_into_buffer : Buffer D S → Option (Buffer D S)
  write_into_buffer b = do
    es ← map_all (Entry.write_into_buffer_at d vs b.store b.current_index) b.entries
    some (record b { entries = es })

  -- The lock is ignored.
  unfoldable pub tick_and_write_into_buffer : Buffer D S → Option (Buffer D S)
  unfolding advance notify_index_changed_listeners
  tick_and_write_into_buffer b = do
    b' ← write_into_buffer (advance b)
    some (notify_index_changed_listeners b')

  unfoldable pub fill_buffer : Buffer D S → Option (Buffer D S)
  fill_buffer b = do
    es ← map_all (λ e. Entry.fill_buffer d (vs.get_value_as_double b.store e.variable) e) b.entries
    some (record b { entries = es })
