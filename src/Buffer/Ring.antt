-- ===== src/Buffer/Ring.antt =====
-- src/buffer/yo_buffer.cpp, and the default methods of
-- include/ihmc/yovariables/buffer/interfaces/yo_buffer_reader.h: the ring of samples that all the
-- entries share, its current index, its in- and out-point. The variables' values are the field
-- `store`; the calls made to listeners are the field `index_log`. `none` is a fault or an exception. The
-- map from names to entries holds, for each entry, the address of its variable. `std::tolower` and the
-- names of the variables, which do not change, are parameters.
pub mod Tick
pub mod Resize
pub mod Valid
pub mod Move
pub mod Entries
pub mod Process
use ihmc_yovariables_cpp.Common.{
  ℕ, ℤ, pos, negsuc, zero, suc, ◌+ℤ◌, ◌-ℤ◌, ltb_ℤ, leb_ℤ, eqb_ℤ, ◌==◌, if◌then◌else◌, Bool, true,
  false, not, ◌&&◌, ◌||◌, List, [], ◌∷◌, ◌++◌, map, Option, none, some, ◌>>=◌, ◌>>◌, require,
  map_all, Doubles,
}
use ihmc_yovariables_cpp.Variables.{Variables}
use ihmc_yovariables_cpp.Registry.Names.{Name}
use ihmc_yovariables_cpp.Registry.VariableList.{NameMap, lookup, put}
use ihmc_yovariables_cpp.Buffer.KeyPoints
use ihmc_yovariables_cpp.Buffer.KeyPoints.{Handler}
use ihmc_yovariables_cpp.Buffer.Entry
use ihmc_yovariables_cpp.Buffer.Entry.{
  Entry, size, rem_size, compute_buffer_size_after_crop, compute_buffer_size_after_cut,
}

pub record Buffer (D S : Type 0) : Type 0 where
  pub in_point : ℤ
  pub out_point : ℤ
  pub current_index : ℤ
  pub buffer_size : ℤ
  pub entries : List (Entry D)
  pub simple_name_to_entries_map : NameMap
  pub key_points_handler : Handler
  pub index_changed_listeners : List ℕ
  pub lock_index : Bool
  pub store : S
  pub index_log : List (ℕ × ℤ)

module _ {D : Type 0} where
  -- `getEntry`: the first entry for the variable at an address.
  unfoldable pub find_entry : ℕ → List (Entry D) → Option (Entry D)
  find_entry v [] = none
  find_entry v (e ∷ es) = let rest = find_entry v es in if e.variable == v then some e else rest

module _ {D S : Type 0} where
  unfoldable pub new_buffer : ℤ → S → Buffer D S
  new_buffer n s = record {
    in_point = pos 0;
    out_point = pos 0;
    current_index = pos 0;
    buffer_size = n;
    entries = [];
    simple_name_to_entries_map = [];
    key_points_handler = KeyPoints.empty;
    index_changed_listeners = [];
    lock_index = false;
    store = s;
    index_log = [];
  }

  unfoldable pub clear : Buffer D S → Buffer D S
  clear b = record b {
    in_point = pos 0;
    out_point = pos 0;
    current_index = pos 0;
    entries = [];
    simple_name_to_entries_map = [];
    key_points_handler = KeyPoints.clear b.key_points_handler;
    index_changed_listeners = [];
  }

  unfoldable pub set_lock_index : Bool → Buffer D S → Buffer D S
  set_lock_index l b = record b { lock_index = l }

  unfoldable pub set_in_point : ℤ → Buffer D S → Buffer D S
  set_in_point i b = record b {
    in_point = i;
    key_points_handler = KeyPoints.trim_key_points i b.out_point b.key_points_handler;
  }

  unfoldable pub set_out_point : ℤ → Buffer D S → Buffer D S
  set_out_point i b = record b {
    out_point = i;
    key_points_handler = KeyPoints.trim_key_points b.in_point i b.key_points_handler;
  }

  unfoldable pub set_in_point_here : Buffer D S → Buffer D S
  unfolding set_in_point
  set_in_point_here b = set_in_point b.current_index b

  unfoldable pub set_out_point_here : Buffer D S → Buffer D S
  unfolding set_out_point
  set_out_point_here b = set_out_point b.current_index b

  unfoldable pub set_in_out_point_full_buffer : Buffer D S → Buffer D S
  set_in_out_point_full_buffer b = record b { in_point = pos 0; out_point = b.buffer_size -ℤ pos 1 }

  unfoldable pub toggle_key_point : Buffer D S → Buffer D S
  toggle_key_point b = record b {
    key_points_handler = (KeyPoints.toggle_key_point b.current_index b.key_points_handler).1;
  }

  unfoldable pub is_at_in_point : Buffer D S → Bool
  is_at_in_point b = eqb_ℤ b.current_index b.in_point

  unfoldable pub is_at_out_point : Buffer D S → Bool
  is_at_out_point b = eqb_ℤ b.current_index b.out_point

  unfoldable pub get_buffer_in_out_length : Buffer D S → ℤ
  get_buffer_in_out_length b =
      if ltb_ℤ b.in_point b.out_point
      then b.out_point -ℤ b.in_point +ℤ pos 1
      else b.buffer_size -ℤ (b.in_point -ℤ b.out_point) +ℤ pos 1

  unfoldable pub is_index_between_bounds : ℤ → Buffer D S → Bool
  is_index_between_bounds i b =
      if ltb_ℤ i (pos 0) || leb_ℤ b.buffer_size i
      then false
      else if leb_ℤ b.in_point b.out_point
      then leb_ℤ b.in_point i && leb_ℤ i b.out_point
      else leb_ℤ i b.out_point || ltb_ℤ b.in_point i

  unfoldable pub notify_index_changed_listeners : Buffer D S → Buffer D S
  notify_index_changed_listeners b = record b {
    index_log = b.index_log ++ map (λ l. (l, b.current_index)) b.index_changed_listeners;
  }

  -- Where `tickAndReadFromBuffer` goes, and whether it rolled over.
  unfoldable pub tick_target : ℤ → Buffer D S → Bool × ℤ
  tick_target step b =
      if is_index_between_bounds (b.current_index +ℤ step) b
      then (false, b.current_index +ℤ step)
      else (true, if leb_ℤ (pos 0) step then b.in_point else b.out_point)

  -- The indices after `tickAndWriteIntoBuffer`: the out-point follows the current index, and pushes
  -- the in-point on.
  unfoldable pub advance : Buffer D S → Buffer D S
  advance b =
      let next = b.current_index +ℤ pos 1 in
      let index = if leb_ℤ b.buffer_size next || ltb_ℤ next (pos 0) then pos 0 else next in
      let pushed =
        if leb_ℤ b.buffer_size (b.in_point +ℤ pos 1) then pos 0 else b.in_point +ℤ pos 1 in
      record b {
        current_index = index;
        out_point = index;
        in_point = if eqb_ℤ index b.in_point then pushed else b.in_point;
        key_points_handler = (KeyPoints.remove_key_point index b.key_points_handler).1;
      }

module _ {D S : Type 0} (d : Doubles D) where
  unfoldable pub clear_buffers : ℤ → Buffer D S → Option (Buffer D S)
  clear_buffers n b = do
    es ← map_all (Entry.clear_buffer d n) b.entries
    some (record b { entries = es; buffer_size = n })

-- The entries under a name, of which there are none where the map lacks the name.
abbrev pub entries_named : Name → NameMap → List ℕ
entries_named k m = elim (lookup k m) [ none ↦ [] | some vs ↦ vs ]

module _ (to_lower : ℕ → ℕ) (name_of : ℕ → Name) where
  abbrev pub entry_key : ℕ → Name
  entry_key v = map to_lower (name_of v)

  -- An entry of another size is refused by an exception.
  unfoldable pub add_entry : {D S : Type 0} → Entry D → Buffer D S → Option (Buffer D S)
  add_entry e b =
      let k = entry_key e.variable in
      let m = b.simple_name_to_entries_map in
      if eqb_ℤ (size e.buffer_data) b.buffer_size
      then some (record b {
        entries = b.entries ++ e ∷ [];
        simple_name_to_entries_map = put k (entries_named k m ++ e.variable ∷ []) m;
      })
      else none

  unfoldable pub add_variable : {D S : Type 0} → Doubles D → ℕ → Buffer D S → Option (Buffer D S)
  unfolding add_entry
  add_variable d v b = elim (find_entry v b.entries) [
    | some e ↦ some b
    | none ↦ do e ← Entry.new_entry d v b.buffer_size; add_entry e b
  ]
