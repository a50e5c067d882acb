-- ===== src/Tests/Rings.antt =====
-- Rings on small inputs.
use ihmc_yovariables_cpp.Common.{
  [], ◌∷◌, Bool-cases, inl, inr, ℕ, pos, ◌+ℤ◌, ◌<ℤ◌, eqb_ℤ, if◌then◌else◌, Bool, false, true, not,
  none, some, ◌>>=◌, ◌≡◌, ◌≢◌, refl, arith, All,
}
use ihmc_yovariables_cpp.Buffer.Entry.{Entry}
use ihmc_yovariables_cpp.Buffer.Ring.{Buffer, find_entry, entries_named, add_variable}
use ihmc_yovariables_cpp.Buffer.Ring.Tick.{
  fits_int, set_current_index, tick_and_read_from_buffer, tick_and_write_into_buffer,
}
use ihmc_yovariables_cpp.Buffer.Ring.Valid.{
  InRange, IsValid, Ticks, set_current_index-IsValid, tick_and_read-IsValid,
}
use ihmc_yovariables_cpp.Buffer.Ring.Move.{Recorded, tick_and_write-records}
use ihmc_yovariables_cpp.Registry.Names.{Name}
use ihmc_yovariables_cpp.Registry.VariableList.{lookup}
use ihmc_yovariables_cpp.Buffer.Ring.Entries.Named.{IsMapped}
use ihmc_yovariables_cpp.Buffer.Ring.Entries.{remove_variable}
use ihmc_yovariables_cpp.Buffer.Ring.Entries.Lookup.{remove_variable-add_variable}
use ihmc_yovariables_cpp.Buffer.Ring.Process.{apply_processor, ended_option}
use ihmc_yovariables_cpp.Buffer.Ring.Process.Forward.{visit, apply_processor-visits}
use ihmc_yovariables_cpp.Buffer.Ring.{is_at_out_point}
use ihmc_yovariables_cpp.Buffer.Ring.Process.{ended}
use ihmc_yovariables_cpp.Buffer.Ring.Process.Circle.{apply_processor-circling}
use ihmc_yovariables_cpp.Buffer.Ring.Process.Stuck.{IsStuck, apply_processor-unending}
use ihmc_yovariables_cpp.Tests.Values.{numbers, one_cell, ring, adds_one}

ring-IsValid : IsValid ring
ring-IsValid = record {
  in_ok = (omega arith, omega arith);
  out_ok = (omega arith, omega arith);
  current_ok = (omega arith, omega arith);
  entries_ok = (refl, tt);
}

set_current_index-IsValid_example :
    (b' : Buffer ℕ ℕ) × (set_current_index one_cell (pos 2) ring ≡ some b')
    × IsValid b'
    × (false ≡ false → InRange (pos 2) (pos 5) → b'.current_index ≡ pos 2)
set_current_index-IsValid_example = set_current_index-IsValid one_cell (pos 2) ring ring-IsValid

-- From index 4 back to the in-point.
tick_and_read-IsValid_example :
    (rolled : Bool) × (b' : Buffer ℕ ℕ) × (tick_and_read_from_buffer one_cell (pos 1) ring
      ≡ some (rolled, b'))
    × IsValid b'
    × (false ≡ true → (rolled ≡ false) × (b' ≡ ring))
    × (false ≡ false → Ticks (pos 1) ring rolled b'.current_index)
    × (b'.in_point ≡ pos 1)
    × (b'.out_point ≡ pos 3)
unfolding fits_int ihmc_yovariables_cpp.Common.Int.◌+ℤ◌
tick_and_read-IsValid_example = tick_and_read-IsValid one_cell (pos 1) ring ring-IsValid refl

-- It goes round the end.
tick_and_write-records_example :
    (b' : Buffer ℕ ℕ) × (tick_and_write_into_buffer numbers one_cell ring ≡ some b')
    × IsValid b'
    × (b'.current_index ≡ (if eqb_ℤ (pos 4 +ℤ pos 1) (pos 5) then pos 0 else pos 4 +ℤ pos 1))
    × (b'.out_point ≡ b'.current_index)
    × (pos 1 <ℤ pos 5 → b'.in_point ≢ b'.current_index)
    × All (Recorded numbers one_cell b'.store b'.current_index b'.buffer_size) b'.entries
tick_and_write-records_example = tick_and_write-records numbers one_cell ring ring-IsValid

absent : find_entry 8 ring.entries ≡ none
unfolding find_entry
absent = refl

-- Every variable has the name x.
abbrev x_name : ℕ → Name
x_name v = 120 ∷ []

abbrev same_letter : ℕ → ℕ
same_letter c = c

ring-IsMapped : IsMapped same_letter x_name ring
unfolding lookup
ring-IsMapped k = ground arith

remove_variable-add_variable_example :
    (e : Entry ℕ) × (b' b'' : Buffer ℕ ℕ) × (add_variable same_letter x_name numbers 8 ring
      ≡ some b')
    × (find_entry 8 b'.entries ≡ some e)
    × ((u : ℕ) → u ≢ 8 → find_entry u b'.entries ≡ find_entry u ring.entries)
    × IsMapped same_letter x_name b'
    × (remove_variable same_letter x_name 8 b' ≡ (some e, b''))
    × ((k : Name)
        → entries_named k b''.simple_name_to_entries_map
          ≡ entries_named k ring.simple_name_to_entries_map)
    × (b'' ≡ record ring { simple_name_to_entries_map = b''.simple_name_to_entries_map })
remove_variable-add_variable_example =
    remove_variable-add_variable same_letter x_name numbers 8 5 ring refl absent ring-IsMapped

-- Three indices, and a move back to the in-point.
apply_processor-visits_example :
    apply_processor numbers one_cell adds_one 3 ring
    ≡ ended_option (visit numbers one_cell adds_one 1 3 ring >>= set_current_index one_cell (pos 1))
apply_processor-visits_example =
    apply_processor-visits numbers one_cell adds_one 1 2 5 3 ring refl refl refl refl refl
      (omega arith) (omega arith) (omega arith)

-- The interval from 3 goes round the end to 1.
abbrev round : Buffer ℕ ℕ
round = record ring { in_point = pos 3; out_point = pos 1 }

apply_processor-circling_example : apply_processor numbers one_cell adds_one 100 round ≢ ended ring
apply_processor-circling_example =
    apply_processor-circling numbers one_cell adds_one 3 1 5 100 round ring refl refl refl refl refl
      (omega arith) (omega arith)

abbrev locked : Buffer ℕ ℕ
locked = record ring { lock_index = true }

locked-IsStuck : IsStuck locked
unfolding is_at_out_point
locked-IsStuck = (refl, refl)

apply_processor-unending_example : apply_processor numbers one_cell adds_one 100 locked ≢ ended ring
apply_processor-unending_example =
    apply_processor-unending numbers one_cell adds_one 100 locked ring refl locked-IsStuck
