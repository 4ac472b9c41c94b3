-- ===== src/Examples/Migrations.antt =====
-- The properties of the migrator with a directory of two files.
use contribution_tracker.Prelude.{
  String, ◌≡◌, refl, true, false, Option, some, List, [], ◌∷◌, ◌++◌, Bool,
}
use Prim.Native.String
use Prim.Native.Nat.{Ordering}
use contribution_tracker.Database.Schema.{order_by}
use contribution_tracker.Database.Session.{ok}
use contribution_tracker.Database.Migrator.{Disk, Entry, Store, files_of, run_files, run_migrations}
use contribution_tracker.Database.Migrations.{Ran, run_migrations-Ran}
use contribution_tracker.Database.Remigrating.{run_migrations_again}

abbrev no_later : String → String → Bool
no_later a b = elim (String.compare a b) [ Ordering.gt ↦ false | _ ↦ true ]

abbrev entries : List Entry
entries =
    record { name = "002_tokens.sql"; is_dir = false }
    ∷ record { name = "notes.txt"; is_dir = false }
    ∷ record { name = "old.sql"; is_dir = true }
    ∷ record { name = "001_tables.sql"; is_dir = false }
    ∷ []

abbrev disk : Disk
disk = record {
  dir = "migrations";
  entries = ok entries;
  read = λ f. ok (String.◌++◌ "sql of " f);
  le = no_later;
}

-- A database that is the list of what was run on it.
abbrev run : String → List String → Option (List String)
run content done = some (done ++ content ∷ [])

abbrev empty_store : Store (List String)
empty_store = record { contents = []; recorded = []; outages = []; refusal = "refused" }

abbrev migrated_store : Store (List String)
migrated_store = record {
  contents = "sql of 001_tables.sql" ∷ "sql of 002_tokens.sql" ∷ [];
  recorded = "001_tables.sql" ∷ "002_tokens.sql" ∷ [];
  outages = [];
  refusal = "refused";
}

migrated_first : run_migrations run disk empty_store ≡ (ok tt, migrated_store)
unfolding run_migrations run_files order_by
migrated_first = refl

run_migrations-Ran_example :
    Ran run disk (files_of disk entries) empty_store (run_migrations run disk empty_store)
run_migrations-Ran_example = run_migrations-Ran run disk entries empty_store refl

run_migrations_again_example : run_migrations run disk migrated_store ≡ (ok tt, migrated_store)
run_migrations_again_example =
    run_migrations_again run disk entries empty_store migrated_store refl migrated_first
