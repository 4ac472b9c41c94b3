-- ===== src/Report/Counts.antt =====
-- `buildActivityCounts` of src/internal/application/report_service.go.
use contribution_tracker.Prelude.{ℕ, ◌+◌, Bool, List, [], ◌∷◌, ◌==◌, ◌&&◌, if◌then◌else◌}
use contribution_tracker.Domain.{Activity, ActivityType, get_type}

-- Equality of the keys of `map[ActivityType]int`.
abbrev pub same_type : ActivityType → ActivityType → Bool
same_type a b = (a.name == b.name) && (a.display_name == b.display_name)

-- An entry of the map, and `ActivityCount`.
pub record ActivityCount : Type 0 where
  pub kind : ActivityType
  pub count : ℕ

-- `countMap[t]++`
abbrev pub increment : ActivityType → List ActivityCount → List ActivityCount
increment t [] = record { kind = t; count = 1 } ∷ []
increment t (c ∷ cs) =
    if same_type c.kind t then record c { count = c.count + 1 } ∷ cs else c ∷ increment t cs

unfoldable pub count_map : List ActivityCount → List Activity → List ActivityCount
count_map m [] = m
count_map m (a ∷ rest) = count_map (increment (get_type a) m) rest

-- `range_map` is the order in which Go visits the map's entries.
unfoldable pub build_activity_counts :
    (List ActivityCount → List ActivityCount) → List Activity → List ActivityCount
build_activity_counts range_map activities = range_map (count_map [] activities)
