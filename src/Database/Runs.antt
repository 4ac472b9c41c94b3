-- ===== src/Database/Runs.antt =====
-- What statements that all succeed have done to the database: each is given as a function on it.
use contribution_tracker.Prelude.{String, ◌≡◌, sym, ap, ◌∙◌, Option, some, List, [], ◌∷◌}
use contribution_tracker.Database.Schema.{Db}
use contribution_tracker.Database.Session.{ok, World, Sql, wrap, exec, ◌>>◌}
use contribution_tracker.Database.Success.{pure-ok, wrap-ok, exec-ok, bind-ok}
use contribution_tracker.Database.Backups.{each}

pub record Runs (m : Sql (Unit {0})) (f : Db → Db) : Type 0 where
  pub at : (w w' : World) → m w ≡ (ok tt, w') → w'.db ≡ f w.db

-- The effects one after the other.
abbrev pub after : {A : Type 0} → (A → Db → Db) → List A → Db → Db
after f [] d = d
after f (x ∷ xs) d = after f xs (f x d)

pub Runs-exec :
    (g : Db → Option Db) (f : Db → Db) → ((d d' : Db) → g d ≡ some d' → d' ≡ f d) → Runs (exec g) f
Runs-exec g f h = record { at = λ w w' e. h w.db w'.db (exec-ok g w w' e) }

pub Runs-wrap : (text : String) (m : Sql (Unit {0})) (f : Db → Db) → Runs m f → Runs (wrap text m) f
Runs-wrap text m f r = record { at = λ w w' e. r.at w w' (wrap-ok text m w w' e) }

pub Runs-then :
    (m n : Sql (Unit {0})) (f g : Db → Db) → Runs m f → Runs n g → Runs (m >> n) (λ d. g (f d))
Runs-then m n f g r s = record {
  at = λ w w' e.
      let (_, w1, first, last) = bind-ok m (λ _. n) w w' e in
      s.at w1 w' last ∙ ap g (r.at w w1 first);
}

pub Runs-each :
    {A : Type 0} (s : A → Sql (Unit {0})) (f : A → Db → Db) (xs : List A)
    → ((x : A) → Runs (s x) (f x))
    → Runs (each s xs) (after f xs)
Runs-each s f [] r = record { at = λ w w' e. ap (λ w. w.db) (sym (pure-ok tt tt w w' e).1) }
Runs-each s f (x ∷ xs) r = Runs-then (s x) (each s xs) (f x) (after f xs) (r x) (Runs-each s f xs r)

-- The same effect, written otherwise.
pub Runs-same : (m : Sql (Unit {0})) (f g : Db → Db) → Runs m f → ((d : Db) → f d ≡ g d) → Runs m g
Runs-same m f g r same = record { at = λ w w' e. r.at w w' e ∙ same w.db }
