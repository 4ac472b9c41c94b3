-- ===== src/Database/Migrator.antt =====
-- src/internal/infrastructure/persistence/migrator.go: `RunMigrations`.
use contribution_tracker.Prelude.{
  String, Bool, ◌&&◌, not, Option, none, some, List, [], ◌∷◌, ◌++◌, ◌==◌, eqb, if◌then◌else◌,
  contains, keep, map,
}
use Prim.Native.Char.{code}
use Prim.Native.String
use contribution_tracker.Database.Schema.{order_by}
use contribution_tracker.Database.Session.{Result, ok, err, first_outage, later_outages}

-- An entry of the directory; a name has no slash.
pub record Entry : Type 0 where
  pub name : String
  pub is_dir : Bool

-- What the files hold, `os.ReadDir` and `os.ReadFile`, and the order of `sort.Strings`.
pub record Disk : Type 0 where
  pub dir : String
  pub entries : Result (List Entry)
  pub read : String → Result String
  pub le : String → String → Bool

-- The database's contents, the rows of `schema_migrations`, the failures that the coming statements
-- meet, and the text of PostgreSQL's error for a statement that it refuses.
pub record Store (D : Type 0) : Type 0 where
  pub contents : D
  pub recorded : List String
  pub outages : List (Option String)
  pub refusal : String

-- `filepath.Ext`: from the last dot on.
abbrev pub ext : String → String
ext String.[] = ""
ext (String.◌∷◌ c s) =
    let later = ext s in
    if not (later == "") then later else if eqb (code c) b'.' then String.◌∷◌ c s else ""

abbrev pub is_migration : Entry → Bool
is_migration e = not e.is_dir && (ext e.name == ".sql")

abbrev pub files_of : Disk → List Entry → List String
files_of disk entries = order_by disk.le (λ f. f) (map (λ e. e.name) (keep is_migration entries))

-- `"<prefix> <name>: "`
abbrev pub about : String → String → String → String
about text name e = String.◌++◌ text (String.◌++◌ name (String.◌++◌ ": " e))

-- `apply` runs a file's SQL, or is refused.
module _ {D : Type 0} (apply : String → D → Option D) where
  abbrev pub Outcome : Type 0
  Outcome = Result (Unit {0}) × Store D

  abbrev pub after_outage :
      Option String → (String → String) → Store D → (Store D → Outcome) → Outcome
  after_outage (some e) text w next = (err (text e), w)
  after_outage none text w next = next w

  -- A statement that may meet an outage, and what follows it.
  abbrev pub attempt : (String → String) → Store D → (Store D → Outcome) → Outcome
  attempt text w next =
      after_outage (first_outage w.outages) text (record w { outages = later_outages w.outages })
        next

  -- The row is inserted and the transaction committed, which makes its changes the database's.
  abbrev pub record_file : String → D → Store D → Outcome
  record_file f changed w = attempt (about "record migration " f) w λ w1.
      if contains f w1.recorded
      then (err (about "record migration " f w1.refusal), w1)
      else attempt (about "commit migration " f) w1
          λ w2. (ok tt, record w2 { contents = changed; recorded = w2.recorded ++ f ∷ [] })

  abbrev pub execute : String → Option D → Store D → Outcome
  execute f none w = (err (about "exec migration " f w.refusal), w)
  execute f (some changed) w = record_file f changed w

  abbrev pub migrate : String → String → Store D → Outcome
  migrate f content w =
      attempt (about "begin tx for " f) w
        λ w1. attempt (about "exec migration " f) w1 λ w2. execute f (apply content w2.contents) w2

  abbrev pub migrate_read : String → Result String → Store D → Outcome
  migrate_read f (err e) w = (err (about "read migration " f e), w)
  migrate_read f (ok content) w = migrate f content w

  abbrev pub go_on : Outcome → (Store D → Outcome) → Outcome
  go_on (err e, w) next = (err e, w)
  go_on (ok _, w) next = next w

  module _ (disk : Disk) where
    -- The loop over the files.
    unfoldable pub run_files : List String → Store D → Outcome
    run_files [] w = (ok tt, w)
    run_files (f ∷ fs) w = attempt (about "check migration " f) w λ w1.
        go_on (if contains f w1.recorded then (ok tt, w1) else migrate_read f (disk.read f) w1)
          (run_files fs)

    abbrev pub run_entries : Result (List Entry) → Store D → Outcome
    run_entries (err e) w = (err (about "read migrations dir " disk.dir e), w)
    run_entries (ok entries) w = run_files (files_of disk entries) w

    unfoldable pub run_migrations : Store D → Outcome
    run_migrations w =
        attempt (String.◌++◌ "create schema_migrations table: ") w (run_entries disk.entries)
