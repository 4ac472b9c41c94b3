-- ===== src/Database/Remigrating.antt =====
-- `RunMigrations` of migrator.go after a run that succeeded.
use contribution_tracker.Prelude.{
  String, ◌≡◌, refl, sym, ◌∙◌, ◌||◌, Bool, true, Option, List, [], ◌∷◌, ◌++◌, contains, All, eq_iff,
  arith,
}
use mathlib.Core.Path.{subst}
use contribution_tracker.Database.Session.{ok}
use contribution_tracker.Database.Migrator.{
  Entry, Disk, Store, files_of, run_files, run_entries, run_migrations,
}
use contribution_tracker.Database.Migrations.{
  Migrated, ended, stopped, passed, applied, Ran, run_migrations-Ran,
}

contains-append :
    (f : String) (xs ys : List String) → contains f (xs ++ ys) ≡ (contains f xs || contains f ys)
contains-append f [] ys = refl
contains-append f (x ∷ xs) ys = ground (arith, contains-append f xs ys)

module _ {D : Type 0} (apply : String → D → Option D) (disk : Disk) where
  contains-after :
      (f : String) (whole : Bool) (fs : List String) (d d' : D) (r r' : List String)
      → Migrated apply disk whole fs d r d' r'
      → contains f r ≡ true
      → contains f r' ≡ true
  contains-after f _ _ _ _ _ _ (ended whole d r) e = e
  contains-after f _ _ _ _ _ _ (stopped fs d r) e = e
  contains-after f _ _ _ _ _ _ (passed whole g fs d d' r r' old m) e =
      contains-after f whole fs d d' r r' m e
  contains-after f _ _ _ _ _ _ (applied whole g content fs d d1 d' r r' new found run m) e =
      contains-after f whole fs d1 d' (r ++ g ∷ []) r' m
        (contains-append f r (g ∷ []) ∙ first (contains f r) (contains f (g ∷ [])) e)
    where
      first : (a b : Bool) → a ≡ true → (a || b) ≡ true
      first a b e = ground arith

  Migrated-recorded :
      (whole : Bool) (fs : List String) (d d' : D) (r r' : List String)
      → Migrated apply disk whole fs d r d' r'
      → whole ≡ true
      → All (λ f. contains f r' ≡ true) fs
  Migrated-recorded _ _ _ _ _ _ (ended whole d r) e = tt
  Migrated-recorded _ _ _ _ _ _ (stopped fs d r) e = cc
  Migrated-recorded _ _ _ _ _ _ (passed whole f fs d d' r r' old m) e =
      (contains-after f whole fs d d' r r' m old, Migrated-recorded whole fs d d' r r' m e)
  Migrated-recorded _ _ _ _ _ _ (applied whole f content fs d d1 d' r r' new found run m) e = (
    contains-after f whole fs d1 d' (r ++ f ∷ []) r' m
        (contains-append f r (f ∷ []) ∙ ground (arith, eq_iff f f)),
    Migrated-recorded whole fs d1 d' (r ++ f ∷ []) r' m e,
  )

  run_files_again :
      (fs : List String) (w : Store D)
      → All (λ f. contains f w.recorded ≡ true) fs
      → run_files apply disk fs (record w { outages = [] }) ≡ (ok tt, record w { outages = [] })
  unfolding run_files
  run_files_again [] w h = refl
  run_files_again (f ∷ fs) w (h, hs) = rw h (run_files_again fs w hs)

  -- Where the directory can be read and a run has succeeded: another run that meets no outage succeeds
  -- and changes nothing.
  pub run_migrations_again :
      (entries : List Entry) (w w' : Store D)
      → disk.entries ≡ ok entries
      → run_migrations apply disk w ≡ (ok tt, w')
      → run_migrations apply disk (record w' { outages = [] }) ≡ (ok tt, record w' { outages = [] })
  unfolding run_migrations
  run_migrations_again entries w w' e done =
      subst
        (λ r.
          run_entries apply disk r (record w' { outages = [] })
          ≡ (ok tt, record w' { outages = [] }))
        (sym e)
        (run_files_again (files_of disk entries) w' (
          Migrated-recorded true (files_of disk entries) w.contents w'.contents w.recorded
            w'.recorded
            (subst (Ran apply disk (files_of disk entries) w) done
              (run_migrations-Ran apply disk entries w e))
            refl))
