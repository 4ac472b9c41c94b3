-- ===== src/Platforms/Types.antt =====
-- The types of a report's activities, with the fetchers of github and gitlab that the program is
-- started with.
use contribution_tracker.Prelude.{
  String, ◌≡◌, refl, sym, ap, ◌∙◌, Bool, true, false, ◌||◌, some, none, List, [], ◌∷◌, All, ◌==◌,
  contains, map, insert, lookup, lookup-insert, if◌then◌else◌, arith,
}
use contribution_tracker.Domain.{Activity, ActivityType, get_type}
use contribution_tracker.Database.Session.{World}
use contribution_tracker.Platforms.Sets.{NameSet, add_types, make_type_set, has_name}
use contribution_tracker.Platforms.Wiring.{Outside, registry_of}
use contribution_tracker.Platforms.Given.{Makes, program_report-Contains}
use contribution_tracker.Report.{Order, ReportQuery, Thread, generate_report}
use contribution_tracker.Report.Contents.{Contains}
use contribution_tracker.Report.Totals.{Interleaves}

-- The name of the activity's type is among those of the types.
abbrev pub IsAsked : List ActivityType → Activity → Type 0
IsAsked types a = contains (get_type a).name (map (λ t. t.name) types) ≡ true

has_name-insert :
    (n k : String) (set : NameSet) → has_name n (insert k true set) ≡ (k == n || has_name n set)
has_name-insert n k set = by_key (k == n) (lookup-insert k n true set)
  where
    by_key :
        (b : Bool)
        → lookup n (insert k true set) ≡ (if b then some true else lookup n set)
        → has_name n (insert k true set) ≡ (b || has_name n set)
    by_key true e = ap (λ o. elim o [ some _ ↦ true | none ↦ false ]) e
    by_key false e = ap (λ o. elim o [ some _ ↦ true | none ↦ false ]) e

has_name-add_types :
    (n : String) (set : NameSet) (types : List ActivityType)
    → has_name n (add_types set types) ≡ (contains n (map (λ t. t.name) types) || has_name n set)
has_name-add_types n set [] = refl
has_name-add_types n set (t ∷ ts) =
    has_name-add_types n (insert t.name true set) ts
    ∙ ap (λ b. contains n (map (λ t. t.name) ts) || b) (has_name-insert n t.name set)
    ∙ shuffled (contains n (map (λ t. t.name) ts)) (t.name == n) (has_name n set)
  where
    shuffled : (a b c : Bool) → (a || (b || c)) ≡ ((b || a) || c)
    shuffled a b c = ground arith

-- A type whose name is in the set was asked for.
asked_name :
    (n : String) (types : List ActivityType)
    → has_name n (make_type_set types) ≡ true
    → contains n (map (λ t. t.name) types) ≡ true
unfolding make_type_set
asked_name n types e =
    sym (has_name-add_types n [] types ∙ or_false (contains n (map (λ t. t.name) types))) ∙ e
  where
    or_false : (b : Bool) → (b || false) ≡ b
    or_false b = ground arith

made-IsAsked : (q : ReportQuery) → Makes (IsAsked q.types) q
made-IsAsked q = record {
  github_commit = λ asked x. asked_name _ q.types asked;
  github_review = λ asked username pr x wanted. asked_name _ q.types asked;
  github_issue = λ asked x. asked_name _ q.types asked;
  github_merged = λ asked x. asked_name _ q.types asked;
  gitlab_commit = λ asked x. asked_name _ q.types asked;
  gitlab_issue = λ asked x. asked_name _ q.types asked;
  gitlab_merged = λ asked x. asked_name _ q.types asked;
  gitlab_note = λ asked username mr x wanted. asked_name _ q.types asked;
}

-- Where the goroutines' appends interleave: every activity of every report in the stream has a type
-- whose name is among those of the query's types, whatever the servers answer.
pub generate_report-IsAsked :
    (o : Outside) (getenv : String → String) (order : Order)
    → ((ts : List Thread) → Interleaves ts (order.run ts))
    → (q : ReportQuery) (w : World)
    → All (Contains (IsAsked q.types)) (generate_report order (registry_of o getenv) q w).0
generate_report-IsAsked o getenv order interleaved q w =
    program_report-Contains (IsAsked q.types) q o getenv order interleaved (made-IsAsked q) w
