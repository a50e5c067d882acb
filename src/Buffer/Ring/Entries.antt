-- ===== src/Buffer/Ring/Entries.antt =====
-- src/buffer/yo_buffer.cpp: the entries and the listeners of a buffer, and the queries that hand on to
-- an entry or to the key points.
pub mod Named
pub mod Lookup
use ihmc_yovariables_cpp.Common.{
  ℕ, ℤ, pos, zero, suc, ◌+ℤ◌, leb_ℤ, eqb_ℤ, ◌==◌, if◌then◌else◌, Bool, true, false, not, List, [],
  ◌∷◌, ◌++◌, length, map, Option, none, some, ◌>>=◌, pos_part, Doubles,
}
use ihmc_yovariables_cpp.Registry.Names.{Name}
use ihmc_yovariables_cpp.Registry.VariableList.{put, erase_one}
use ihmc_yovariables_cpp.Buffer.KeyPoints
use ihmc_yovariables_cpp.Buffer.KeyPoints.{Handler}
use ihmc_yovariables_cpp.Buffer.Entry
use ihmc_yovariables_cpp.Buffer.Entry.{Entry, size, values_close}
use ihmc_yovariables_cpp.Buffer.Ring.{
  Buffer, find_entry, entry_key, entries_named, add_variable, get_buffer_in_out_length,
}

module _ {D : Type 0} where
  -- The `erase` of the entry that `getEntry` finds.
  unfoldable pub erase_entry : ℕ → List (Entry D) → List (Entry D)
  erase_entry v [] = []
  erase_entry v (e ∷ es) = let rest = erase_entry v es in if e.variable == v then es else e ∷ rest

module _ (to_lower : ℕ → ℕ) (name_of : ℕ → Name) where
  -- The result is the entry removed. Of the entries under the name it is the first one for its
  -- variable, as it is among all.
  unfoldable pub remove_variable : {D S : Type 0} → ℕ → Buffer D S → Option (Entry D) × Buffer D S
  unfolding erase_entry
  remove_variable v b = elim (find_entry v b.entries) [
    | none ↦ (none, b)
    | some e ↦
        let k = entry_key to_lower name_of v in
        let m = b.simple_name_to_entries_map in
        (
          some e,
          record b {
            entries = erase_entry v b.entries;
            simple_name_to_entries_map = put k (erase_one v (entries_named k m)) m;
          },
        )
  ]

  unfoldable pub add_variables :
      {D S : Type 0} → Doubles D → List ℕ → Buffer D S → Option (Buffer D S)
  add_variables d [] b = some b
  add_variables d (v ∷ vs) b = do b' ← add_variable to_lower name_of d v b; add_variables d vs b'

module _ {D S : Type 0} where
  unfoldable pub get_variables : Buffer D S → List ℕ
  get_variables b = map (λ (e : Entry D). e.variable) b.entries

  unfoldable pub add_listener : ℕ → Buffer D S → Buffer D S
  add_listener l b = record b { index_changed_listeners = b.index_changed_listeners ++ l ∷ [] }

  unfoldable pub remove_listeners : Buffer D S → Buffer D S
  remove_listeners b = record b { index_changed_listeners = [] }

  unfoldable pub remove_listener : ℕ → Buffer D S → Bool × Buffer D S
  remove_listener l b = elim (KeyPoints.erase_first b.index_changed_listeners l) [
    | none ↦ (false, b)
    | some ls ↦ (true, record b { index_changed_listeners = ls })
  ]

  unfoldable pub get_next_key_point : Buffer D S → ℤ
  get_next_key_point b = KeyPoints.get_next_key_point b.current_index b.key_points_handler

  unfoldable pub get_previous_key_point : Buffer D S → ℤ
  get_previous_key_point b = KeyPoints.get_previous_key_point b.current_index b.key_points_handler

module _ {D S : Type 0} (d : Doubles D) where
  -- `none` inside is the NaN for a variable that has no entry.
  unfoldable pub compute_average : ℕ → Buffer D S → Option (Option D)
  compute_average v b = elim (find_entry v b.entries) [
    | none ↦ some none
    | some e ↦ Entry.compute_average d (pos 0) (size e.buffer_data) e >>= λ a. some (some a)
  ]
