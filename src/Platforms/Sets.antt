-- ===== src/Platforms/Sets.antt =====
-- What fetcher.go of github and of gitlab have in common: their sets of names, and the search by them.
use contribution_tracker.Prelude.{
  String, Bool, true, false, some, none, List, [], ◌∷◌, ◌++◌, insert, lookup, if◌then◌else◌,
}
use contribution_tracker.Domain.{ActivityType, Repository}
use contribution_tracker.Database.Session.{Result, ok, err}
use contribution_tracker.Report.Outcomes.{Outcome, value, error, about, ◌>>=◌}

-- A `map[string]bool` with the value true at every key.
abbrev pub NameSet : Type 0
NameSet = List (String × Bool)

abbrev pub add_types : NameSet → List ActivityType → NameSet
add_types set [] = set
add_types set (t ∷ ts) = add_types (insert t.name true set) ts

unfoldable pub make_type_set : List ActivityType → NameSet
make_type_set types = add_types [] types

abbrev pub add_repos : NameSet → List Repository → NameSet
add_repos set [] = set
add_repos set (r ∷ rs) = add_repos (insert r.full_name true set) rs

unfoldable pub make_repo_set : List Repository → NameSet
make_repo_set repos = add_repos [] repos

-- `_, ok := set[name]`
abbrev pub has_name : String → NameSet → Bool
has_name name set = elim (lookup name set) [ some _ ↦ true | none ↦ false ]

-- A kind of activity that is fetched only if its type was asked for, and what follows it.
abbrev pub if_asked : {A : Type 0} → Bool → String → Outcome (List A) → Outcome (List A)
if_asked asked text found = if asked then about text found else value []

abbrev pub then_also : {A : Type 0} → Outcome (List A) → Outcome (List A) → Outcome (List A)
then_also first rest = first >>= λ xs. rest >>= λ ys. value (xs ++ ys)

-- `json.Unmarshal`, and the error that the caller makes of its.
abbrev pub parsed : {A : Type 0} → String → Result A → Outcome A
parsed text (ok a) = value a
parsed text (err e) = about text (error e)

-- A loop that appends what each round finds.
abbrev pub gathered : {A B : Type 0} → (A → Outcome (List B)) → List A → Outcome (List B)
gathered f [] = value []
gathered f (x ∷ xs) = then_also (f x) (gathered f xs)
