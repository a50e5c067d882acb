-- ===== src/Buffer/Ring/Entries/Lookup.antt =====
-- The entries of a buffer as a map from variables.
use ihmc_yovariables_cpp.Common.{
  ℕ, ℤ, pos, eqb_ℤ, List, [], ◌∷◌, ◌++◌, length-replicate, none, some, ◌≡◌, ◌≢◌, refl, sym, ap, ◌∙◌,
  arith, Doubles, if_true, eqb_ℤ_refl,
}
use ihmc_yovariables_cpp.Buffer.Array.{new_array}
use ihmc_yovariables_cpp.Buffer.Entry.{Entry, size, new_entry, clear_buffer}
use ihmc_yovariables_cpp.Registry.Names.{Name}
use ihmc_yovariables_cpp.Registry.VariableList.{put}
use ihmc_yovariables_cpp.Buffer.Ring.{
  Buffer, find_entry, entry_key, entries_named, add_variable, add_entry,
}
use ihmc_yovariables_cpp.Buffer.Ring.Entries.Named.{
  variables_named, IsMapped, IsMapped-append, remove_variable-IsMapped,
}
use ihmc_yovariables_cpp.Buffer.Ring.Entries.{erase_entry, remove_variable}

module _ {D : Type 0} where
  find_last :
      (v : ℕ) (es : List (Entry D)) (e : Entry D)
      → find_entry v es ≡ none
      → e.variable ≡ v
      → find_entry v (es ++ e ∷ []) ≡ some e
  unfolding find_entry
  find_last v [] e h k = ground arith
  find_last v (x ∷ es) e h k = ground (arith, find_last v es e)

  find_other :
      (u : ℕ) (es : List (Entry D)) (e : Entry D)
      → e.variable ≢ u
      → find_entry u (es ++ e ∷ []) ≡ find_entry u es
  unfolding find_entry
  find_other u [] e h = ground arith
  find_other u (x ∷ es) e h = ground (arith, find_other u es e)

  erase_last :
      (v : ℕ) (es : List (Entry D)) (e : Entry D)
      → find_entry v es ≡ none
      → e.variable ≡ v
      → erase_entry v (es ++ e ∷ []) ≡ es
  unfolding find_entry erase_entry
  erase_last v [] e h k = ground arith
  erase_last v (x ∷ es) e h k = ground (arith, erase_last v es e)

  erase_other :
      (u v : ℕ) (es : List (Entry D)) → u ≢ v → find_entry u (erase_entry v es) ≡ find_entry u es
  unfolding find_entry erase_entry
  erase_other u v [] h = refl
  erase_other u v (x ∷ es) h = ground (arith, erase_other u v es)

module _ {D : Type 0} (d : Doubles D) where
  new_entry-fields :
      (v n : ℕ)
      → (e : Entry D) × (new_entry d v (pos n) ≡ some e)
        × (e.variable ≡ v)
        × (size e.buffer_data ≡ pos n)
  unfolding new_entry clear_buffer new_array
  new_entry-fields v n = (_, refl, refl, ap pos (length-replicate n d.zero_value))

module _ (to_lower : ℕ → ℕ) (name_of : ℕ → Name) {D S : Type 0} (d : Doubles D) where
  -- A buffer with one more entry.
  abbrev with_entry : Entry D → Buffer D S → Buffer D S
  with_entry e b =
      let k = entry_key to_lower name_of e.variable in
      let m = b.simple_name_to_entries_map in
      record b {
        entries = b.entries ++ e ∷ [];
        simple_name_to_entries_map = put k (entries_named k m ++ e.variable ∷ []) m;
      }

  add_entry_fits :
      (e : Entry D) (b : Buffer D S)
      → size e.buffer_data ≡ b.buffer_size
      → add_entry to_lower name_of e b ≡ some (with_entry e b)
  unfolding add_entry
  add_entry_fits e b h =
      if_true _ _ (ap (λ (z : ℤ). eqb_ℤ z b.buffer_size) h ∙ eqb_ℤ_refl b.buffer_size)

  add_variable_run :
      (v n : ℕ) (b : Buffer D S)
      → b.buffer_size ≡ pos n
      → find_entry v b.entries ≡ none
      → (e : Entry D) × (e.variable ≡ v)
        × (add_variable to_lower name_of d v b ≡ some (with_entry e b))
  unfolding add_variable
  add_variable_run v n b h k =
      let (e, made, named, sized) = new_entry-fields d v n in
      let made_here : new_entry d v b.buffer_size ≡ some e = ap (new_entry d v) h ∙ made in
      (e, named, rw (add_variable, k, made_here) (add_entry_fits e b (sized ∙ sym h)))

  remove_last :
      (v : ℕ) (b : Buffer D S) (e : Entry D)
      → find_entry v b.entries ≡ none
      → e.variable ≡ v
      → let r = remove_variable to_lower name_of v (with_entry e b) in
        (r.0 ≡ some e)
        × (r.1 ≡ record b { simple_name_to_entries_map = r.1.simple_name_to_entries_map })
  unfolding remove_variable
  remove_last v b e k named =
      let last = find_last v b.entries e k named in
      (
        rw (remove_variable, last) refl,
        rw (remove_variable, last, erase_last v b.entries e k named) refl,
      )

  -- In a buffer whose map has under each name the entries of that name, in order, a variable that has
  -- no entry is added without a fault. Then it has an entry, every other variable has the entry that
  -- it had, and the map has the new entry last under its name. The removal of the variable returns
  -- that entry, the map then has under every name what it had at first, and the rest of the buffer is
  -- as it was.
  pub remove_variable-add_variable :
      (v n : ℕ) (b : Buffer D S)
      → b.buffer_size ≡ pos n
      → find_entry v b.entries ≡ none
      → IsMapped to_lower name_of b
      → (e : Entry D) × (b' b'' : Buffer D S) × (add_variable to_lower name_of d v b ≡ some b')
        × (find_entry v b'.entries ≡ some e)
        × ((u : ℕ) → u ≢ v → find_entry u b'.entries ≡ find_entry u b.entries)
        × IsMapped to_lower name_of b'
        × (remove_variable to_lower name_of v b' ≡ (some e, b''))
        × ((k : Name)
            → entries_named k b''.simple_name_to_entries_map
              ≡ entries_named k b.simple_name_to_entries_map)
        × (b'' ≡ record b { simple_name_to_entries_map = b''.simple_name_to_entries_map })
  remove_variable-add_variable v n b h k mapped =
      let (e, named, run) = add_variable_run v n b h k in
      let b' = with_entry e b in
      let r = remove_variable to_lower name_of v b' in
      let mapped' : IsMapped to_lower name_of b' = IsMapped-append to_lower name_of e b mapped in
      let (returned, rest) = remove_last v b e k named in
      let mapped'' = remove_variable-IsMapped to_lower name_of v b' mapped' in
      (
        e,
        b',
        r.1,
        run,
        find_last v b.entries e k named,
        λ u ne. find_other u b.entries e (λ same. ne (sym same ∙ named)),
        mapped',
        ap (λ o. (o, r.1)) returned,
        λ j.
            mapped'' j
            ∙ ap (λ (x : Buffer D S). variables_named to_lower name_of j x.entries) rest
            ∙ sym (mapped j),
        rest,
      )
