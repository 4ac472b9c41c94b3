-- ===== src/Database/Migrations.antt =====
-- Which files `RunMigrations` of migrator.go applies and which it records.
use contribution_tracker.Prelude.{
  String, ◌≡◌, refl, sym, Bool, true, false, Option, some, none, List, [], ◌∷◌, ◌++◌, contains,
  if◌then◌else◌,
}
use mathlib.Core.Path.{subst, subst₂}
use contribution_tracker.Database.Session.{Result, ok, err, first_outage, later_outages}
use contribution_tracker.Database.Migrator.{
  Entry, Disk, Store, files_of, about, after_outage, attempt, record_file, execute, migrate_read,
  go_on, run_files, run_entries, run_migrations,
}

module _ {D : Type 0} (apply : String → D → Option D) (disk : Disk) where
  -- From one state of the database and its records to another: each file in turn is passed over if it
  -- is recorded, or else its SQL is applied and it is recorded. With `false` it may stop before a file.
  pub data Migrated : Bool → List String → D → List String → D → List String → Type 0 where
    ended : (whole : Bool) (d : D) (r : List String) → Migrated whole [] d r d r
    stopped : (fs : List String) (d : D) (r : List String) → Migrated false fs d r d r
    passed :
        (whole : Bool) (f : String) (fs : List String) (d d' : D) (r r' : List String)
        → contains f r ≡ true
        → Migrated whole fs d r d' r'
        → Migrated whole (f ∷ fs) d r d' r'
    applied :
        (whole : Bool) (f content : String) (fs : List String) (d d1 d' : D) (r r' : List String)
        → contains f r ≡ false
        → disk.read f ≡ ok content
        → apply content d ≡ some d1
        → Migrated whole fs d1 (r ++ f ∷ []) d' r'
        → Migrated whole (f ∷ fs) d r d' r'

  -- What a run of the files, or the rest of one, has done.
  abbrev pub Ran : List String → Store D → Result (Unit {0}) × Store D → Type 0
  Ran fs w (ok _, w') = Migrated true fs w.contents w.recorded w'.contents w'.recorded
  Ran fs w (err _, w') = Migrated false fs w.contents w.recorded w'.contents w'.recorded

  -- One file: it is applied and recorded, or nothing has changed.
  abbrev One : String → Store D → Result (Unit {0}) × Store D → Type 0
  One f w (err _, w') = (w'.contents ≡ w.contents) × (w'.recorded ≡ w.recorded)
  One f w (ok _, w') =
      (content : String) × (disk.read f ≡ ok content)
      × (apply content w.contents ≡ some w'.contents)
      × (w'.recorded ≡ w.recorded ++ f ∷ [])

  -- A statement either meets an outage or is followed by the next.
  pub attempt-holds :
      (Q : Result (Unit {0}) × Store D → Type 0) (text : String → String) (w : Store D)
      (next : Store D → Result (Unit {0}) × Store D)
      → ((e : String) (os : List (Option String)) → Q (err e, record w { outages = os }))
      → ((os : List (Option String)) → Q (next (record w { outages = os })))
      → Q (attempt apply text w next)
  attempt-holds Q text w next failed went_on = by_outage (first_outage w.outages)
    where
      by_outage :
          (o : Option String)
          → Q (after_outage apply o text (record w { outages = later_outages w.outages }) next)
      by_outage none = went_on (later_outages w.outages)
      by_outage (some e) = failed (text e) (later_outages w.outages)

  record_file-One :
      (f content : String) (d : D) (w : Store D)
      → contains f w.recorded ≡ false
      → disk.read f ≡ ok content
      → apply content w.contents ≡ some d
      → One f w (record_file apply f d w)
  record_file-One f content d w new found run =
      attempt-holds (One f w) (about "record migration " f) w _ (λ e os. (refl, refl))
        λ os. rw new (
          attempt-holds (One f w) (about "commit migration " f) (record w { outages = os }) _
            (λ e os. (refl, refl)) (λ os. (content, found, run, refl)))

  execute-One :
      (f content : String) (o : Option D) (w : Store D)
      → contains f w.recorded ≡ false
      → disk.read f ≡ ok content
      → apply content w.contents ≡ o
      → One f w (execute apply f o w)
  execute-One f content none w new found run = (refl, refl)
  execute-One f content (some d) w new found run = record_file-One f content d w new found run

  migrate_read-One :
      (f : String) (r : Result String) (w : Store D)
      → contains f w.recorded ≡ false
      → disk.read f ≡ r
      → One f w (migrate_read apply f r w)
  migrate_read-One f (err e) w new found = (refl, refl)
  migrate_read-One f (ok content) w new found =
      attempt-holds (One f w) (about "begin tx for " f) w _ (λ e os. (refl, refl))
        λ os.
          attempt-holds (One f w) (about "exec migration " f) (record w { outages = os }) _
            (λ e os. (refl, refl))
            λ os.
              execute-One f content (apply content w.contents) (record w { outages = os }) new found
                refl

  -- After one file, the others.
  go_on-Ran :
      (f : String) (fs : List String) (w : Store D) (o : Result (Unit {0}) × Store D)
      → contains f w.recorded ≡ false
      → One f w o
      → ((w' : Store D) → Ran fs w' (run_files apply disk fs w'))
      → Ran (f ∷ fs) w (go_on apply o (run_files apply disk fs))
  go_on-Ran f fs w (err e, w') new (same, records) rest =
      subst₂ (Migrated false (f ∷ fs) w.contents w.recorded) (sym same) (sym records)
        (stopped (f ∷ fs) w.contents w.recorded)
  go_on-Ran f fs w (ok _, w') new (content, found, run, records) rest =
      continued (run_files apply disk fs w') (rest w')
    where
      continued : (p : Result (Unit {0}) × Store D) → Ran fs w' p → Ran (f ∷ fs) w p
      continued (ok _, w2) m =
          applied true f content fs w.contents w'.contents w2.contents w.recorded w2.recorded new
            found run
            (subst (λ r. Migrated true fs w'.contents r w2.contents w2.recorded) records m)
      continued (err _, w2) m =
          applied false f content fs w.contents w'.contents w2.contents w.recorded w2.recorded new
            found run
            (subst (λ r. Migrated false fs w'.contents r w2.contents w2.recorded) records m)

  passed-Ran :
      (f : String) (fs : List String) (w : Store D) (p : Result (Unit {0}) × Store D)
      → contains f w.recorded ≡ true
      → Ran fs w p
      → Ran (f ∷ fs) w p
  passed-Ran f fs w (ok _, w') old m =
      passed true f fs w.contents w'.contents w.recorded w'.recorded old m
  passed-Ran f fs w (err _, w') old m =
      passed false f fs w.contents w'.contents w.recorded w'.recorded old m

  pub run_files-Ran : (fs : List String) (w : Store D) → Ran fs w (run_files apply disk fs w)
  unfolding run_files
  run_files-Ran [] w = ended true w.contents w.recorded
  run_files-Ran (f ∷ fs) w =
      attempt-holds (Ran (f ∷ fs) w) (about "check migration " f) w _
        (λ e os. stopped (f ∷ fs) w.contents w.recorded)
        (λ os. by_record (contains f w.recorded) os refl (run_files-Ran fs))
    where
      by_record :
          (b : Bool) (os : List (Option String))
          → contains f w.recorded ≡ b
          → ((w' : Store D) → Ran fs w' (run_files apply disk fs w'))
          → Ran (f ∷ fs) w (
              go_on apply
                (if b
                  then (ok tt, record w { outages = os })
                  else migrate_read apply f (disk.read f) (record w { outages = os }))
                (run_files apply disk fs))
      by_record true os old rest =
          passed-Ran f fs w (run_files apply disk fs (record w { outages = os })) old
            (rest (record w { outages = os }))
      by_record false os new rest =
          go_on-Ran f fs w (migrate_read apply f (disk.read f) (record w { outages = os })) new
            (migrate_read-One f (disk.read f) (record w { outages = os }) new refl) rest

  -- Where the directory can be read: a run goes through its files in order, passes over those that are
  -- recorded, and applies and records each of the others, all of them where it succeeds; where it fails
  -- it stops before a file, with what came before it applied and recorded.
  pub run_migrations-Ran :
      (entries : List Entry) (w : Store D)
      → disk.entries ≡ ok entries
      → Ran (files_of disk entries) w (run_migrations apply disk w)
  unfolding run_migrations
  run_migrations-Ran entries w e =
      attempt-holds (Ran (files_of disk entries) w) _ w _
        (λ e os. stopped (files_of disk entries) w.contents w.recorded)
        (λ os.
          subst
            (λ r.
              Ran (files_of disk entries) w (run_entries apply disk r (record w { outages = os })))
            (sym e) (run_files-Ran (files_of disk entries) (record w { outages = os })))
