-- ===== src/Buffer/KeyPoints.antt =====
-- src/buffer/key_points_handler.cpp: the buffer indices that a user marks, and the listeners that
-- are told of changes. A listener is its address; the calls made to listeners are the log.
pub mod Order
pub mod Lookup
pub mod Search
pub mod Notify
use ihmc_yovariables_cpp.Common.{
  ℕ, ℤ, ltb_ℤ, eqb_ℤ, ◌==◌, if◌then◌else◌, Bool, true, false, not, ◌&&◌, ◌||◌, List, [], ◌∷◌, ◌++◌,
  map, Option, none, some,
}
use mathlib.Core.List.{reverse}

-- `KeyPointsChange`: what a listener is handed.
pub record Change : Type 0 where
  pub was_toggled : Bool
  pub are_key_points_enabled : Bool
  pub added_key_points : List ℤ
  pub removed_key_points : List ℤ

pub record Handler : Type 0 where
  pub enable_key_points : Bool
  pub key_points : List ℤ
  pub listeners : List ℕ
  pub log : List (ℕ × Change)

unfoldable pub empty : Handler
empty = record { enable_key_points = false; key_points = []; listeners = []; log = [] }

pub clear : Handler → Handler
clear h = record h { key_points = []; listeners = [] }

pub add_listener : Handler → ℕ → Handler
add_listener h l = record h { listeners = h.listeners ++ l ∷ [] }

pub remove_listeners : Handler → Handler
remove_listeners h = record h { listeners = [] }

-- `std::find` and `erase`: the first occurrence goes; `none` if there is none.
pub erase_first : List ℕ → ℕ → Option (List ℕ)
erase_first [] l = none
erase_first (x ∷ xs) l =
    let rest = erase_first xs l in
    if x == l then some xs else elim rest [ none ↦ none | some ys ↦ some (x ∷ ys) ]

pub remove_listener : Handler → ℕ → Bool × Handler
remove_listener h l = elim (erase_first h.listeners l) [
  | none ↦ (false, h)
  | some ls ↦ (true, record h { listeners = ls })
]

-- Each listener is called, in the order of registration.
unfoldable pub notify : Change → Handler → Handler
notify c h = record h { log = h.log ++ map (λ l. (l, c)) h.listeners }

unfoldable pub notify_added_key_points : List ℤ → Handler → Handler
unfolding notify
notify_added_key_points ks h =
    notify
      (record {
        was_toggled = false;
        are_key_points_enabled = h.enable_key_points;
        added_key_points = ks;
        removed_key_points = [];
      })
      h

unfoldable pub notify_removed_key_points : List ℤ → Handler → Handler
unfolding notify
notify_removed_key_points ks h =
    notify
      (record {
        was_toggled = false;
        are_key_points_enabled = h.enable_key_points;
        added_key_points = [];
        removed_key_points = ks;
      })
      h

unfoldable pub toggle_key_points : Handler → Handler
unfolding notify
toggle_key_points h =
    notify
      (record {
        was_toggled = true;
        are_key_points_enabled = not h.enable_key_points;
        added_key_points = [];
        removed_key_points = [];
      })
      (record h { enable_key_points = not h.enable_key_points })

-- `enable != enableKeyPoints_`
pub differ : Bool → Bool → Bool
differ true b = not b
differ false b = b

pub enable_key_points : Bool → Handler → Handler
enable_key_points enable h = if differ enable h.enable_key_points then toggle_key_points h else h

-- How the scan over the ordered vector ends.
pub data Scan : Type 0 where
  erased inserted appended unchanged : Scan

-- The loop of `toggleKeyPoint` from the current position on, with the `push_back` behind it.
unfoldable pub toggle_scan : ℤ → List ℤ → List ℤ × Scan
toggle_scan b [] = (b ∷ [], appended)
toggle_scan b (k ∷ ks) =
    let (rest, s) = toggle_scan b ks in
    if eqb_ℤ k b then (ks, erased) else if ltb_ℤ b k then (b ∷ k ∷ ks, inserted) else (k ∷ rest, s)

-- The loop of `addKeyPoint`.
unfoldable pub add_scan : ℤ → List ℤ → List ℤ × Scan
add_scan b [] = (b ∷ [], appended)
add_scan b (k ∷ ks) =
    let (rest, s) = add_scan b ks in
    if eqb_ℤ k b
    then (k ∷ ks, unchanged)
    else if ltb_ℤ b k
    then (b ∷ k ∷ ks, inserted)
    else (k ∷ rest, s)

-- The loop of `removeKeyPoint`, which stops at the first greater key point.
unfoldable pub remove_scan : ℤ → List ℤ → List ℤ × Scan
remove_scan b [] = ([], unchanged)
remove_scan b (k ∷ ks) =
    let (rest, s) = remove_scan b ks in
    if eqb_ℤ k b then (ks, erased) else if ltb_ℤ b k then (k ∷ ks, unchanged) else (k ∷ rest, s)

-- What each way of ending does: the `push_back` of `toggleKeyPoint` tells nobody.
unfoldable pub end_toggle : ℤ → List ℤ × Scan → Handler → Bool × Handler
unfolding notify_removed_key_points notify_added_key_points
end_toggle b (ks, erased) h =
    (false, notify_removed_key_points (b ∷ []) (record h { key_points = ks }))
end_toggle b (ks, inserted) h =
    (true, notify_added_key_points (b ∷ []) (record h { key_points = ks }))
end_toggle b (ks, appended) h = (true, record h { key_points = ks })
end_toggle b (ks, unchanged) h = (true, record h { key_points = ks })

unfoldable pub toggle_key_point : ℤ → Handler → Bool × Handler
unfolding end_toggle
toggle_key_point b h = end_toggle b (toggle_scan b h.key_points) h

unfoldable pub end_add : ℤ → List ℤ × Scan → Handler → Bool × Handler
unfolding notify_added_key_points
end_add b (ks, unchanged) h = (false, h)
end_add b (ks, inserted) h = (true, notify_added_key_points (b ∷ []) (record h { key_points = ks }))
end_add b (ks, appended) h = (true, notify_added_key_points (b ∷ []) (record h { key_points = ks }))
end_add b (ks, erased) h = (false, h)

unfoldable pub add_key_point : ℤ → Handler → Bool × Handler
unfolding end_add
add_key_point b h = end_add b (add_scan b h.key_points) h

unfoldable pub end_remove : ℤ → List ℤ × Scan → Handler → Bool × Handler
unfolding notify_removed_key_points
end_remove b (ks, erased) h =
    (true, notify_removed_key_points (b ∷ []) (record h { key_points = ks }))
end_remove b (ks, unchanged) h = (false, h)
end_remove b (ks, inserted) h = (false, h)
end_remove b (ks, appended) h = (false, h)

unfoldable pub remove_key_point : ℤ → Handler → Bool × Handler
unfolding end_remove
remove_key_point b h = end_remove b (remove_scan b h.key_points) h

-- The first key point above `b`, in the order of the vector.
pub first_above : ℤ → List ℤ → Option ℤ
first_above b [] = none
first_above b (k ∷ ks) = let rest = first_above b ks in if ltb_ℤ b k then some k else rest

-- The first key point below `b`; the caller hands the vector over from its back.
pub first_below : ℤ → List ℤ → Option ℤ
first_below b [] = none
first_below b (k ∷ ks) = let rest = first_below b ks in if ltb_ℤ k b then some k else rest

abbrev pub front_or : List ℤ → ℤ → ℤ
front_or [] d = d
front_or (k ∷ ks) d = k

abbrev pub else_or : Option ℤ → ℤ → ℤ
else_or none d = d
else_or (some k) d = k

unfoldable pub get_next_key_point : ℤ → Handler → ℤ
get_next_key_point b h = else_or (first_above b h.key_points) (front_or h.key_points b)

unfoldable pub get_previous_key_point : ℤ → Handler → ℤ
get_previous_key_point b h =
    else_or (first_below b (reverse h.key_points)) (front_or (reverse h.key_points) b)

-- The test of `trimKeyPoints`: a start at or behind the end means that the interval goes round.
unfoldable pub outside_interval : ℤ → ℤ → ℤ → Bool
outside_interval start end k =
    if ltb_ℤ start end then ltb_ℤ k start || ltb_ℤ end k else ltb_ℤ k start && ltb_ℤ end k

-- The loop of `trimKeyPoints`: the key points kept, and those removed.
unfoldable pub trim_scan : ℤ → ℤ → List ℤ → List ℤ × List ℤ
trim_scan start end [] = ([], [])
trim_scan start end (k ∷ ks) =
    let (kept, removed) = trim_scan start end ks in
    if outside_interval start end k then (kept, k ∷ removed) else (k ∷ kept, removed)

unfoldable pub trim_key_points : ℤ → ℤ → Handler → Handler
unfolding notify_removed_key_points
trim_key_points start end h =
    let (kept, removed) = trim_scan start end h.key_points in
    notify_removed_key_points removed (record h { key_points = kept })

-- The calls that a client makes, and a history of them.
pub data Call : Type 0 where
  toggles adds removes : ℤ → Call
  trims : ℤ → ℤ → Call
  clears : Call
  listens : ℕ → Call
  enables : Bool → Call

pub call : Call → Handler → Handler
call (toggles b) h = (toggle_key_point b h).1
call (adds b) h = (add_key_point b h).1
call (removes b) h = (remove_key_point b h).1
call (trims s e) h = trim_key_points s e h
call clears h = clear h
call (listens l) h = add_listener h l
call (enables b) h = enable_key_points b h

pub run : List Call → Handler → Handler
run [] h = h
run (c ∷ cs) h = run cs (call c h)
