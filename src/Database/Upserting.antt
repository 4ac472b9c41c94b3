-- ===== src/Database/Upserting.antt =====
-- `Upsert` of pgx_repository_store.go: the row of a project, and the rows of the others.
use contribution_tracker.Prelude.{
  String, ◌≡◌, refl, sym, ap, ◌∙◌, Bool, true, false, Option, some, none, List, [], ◌∷◌, ◌++◌,
  eq_iff, arith, find, if◌then◌else◌, eq_of_some,
}
use mathlib.Core.Path.{subst}
use contribution_tracker.Domain.{Repository}
use contribution_tracker.Database.Schema.{Db, update_rows, has_repository}
use contribution_tracker.Database.Session.{ok, World, exec_returning}
use contribution_tracker.Database.Success.{wrap-ok}
use contribution_tracker.Database.Repositories.{
  same_project, overwrite, overwrite_or_insert, upsert,
}

same_project_self : (r : Repository) → same_project r r ≡ true
same_project_self r =
    ground (arith, eq_iff r.full_name r.full_name, eq_iff r.platform.name r.platform.name)

-- Two projects that a row belongs to are the same.
same_project-apart :
    (r p x : Repository)
    → same_project r p ≡ false
    → same_project r x ≡ true
    → same_project p x ≡ false
same_project-apart r p x apart same = ground (
  arith,
  eq_iff p.full_name r.full_name,
  eq_iff p.platform.name r.platform.name,
  eq_iff x.full_name r.full_name,
  eq_iff x.platform.name r.platform.name,
  eq_iff x.full_name p.full_name,
  eq_iff x.platform.name p.platform.name,
)

abbrev stored : Repository → List Repository → List Repository
stored r xs = update_rows (same_project r) (overwrite r) xs

find-stored :
    (r s : Repository) (xs : List Repository)
    → find (same_project r) xs ≡ some s
    → find (same_project r) (stored r xs) ≡ some (overwrite r s)
find-stored r s [] e = cc
find-stored r s (x ∷ xs) e = by_row (same_project r x) refl e (find-stored r s xs)
  where
    by_row :
        (b : Bool)
        → same_project r x ≡ b
        → (if b then some x else find (same_project r) xs) ≡ some s
        → (find (same_project r) xs ≡ some s
            → find (same_project r) (stored r xs) ≡ some (overwrite r s))
        → (if same_project r (if b then overwrite r x else x)
            then some (if b then overwrite r x else x)
            else find (same_project r) (stored r xs))
          ≡ some (overwrite r s)
    by_row true same e ih =
        ap (λ b. if b then some (overwrite r x) else find (same_project r) (stored r xs)) same
        ∙ ap (λ x. some (overwrite r x)) (eq_of_some e)
    by_row false apart e ih =
        ap (λ b. if b then some x else find (same_project r) (stored r xs)) apart ∙ ih e

find-others :
    (r p : Repository) (xs : List Repository)
    → same_project r p ≡ false
    → find (same_project p) (stored r xs) ≡ find (same_project p) xs
find-others r p [] apart = refl
find-others r p (x ∷ xs) apart =
    by_row (same_project r x) (same_project-apart r p x apart) (find-others r p xs apart)
  where
    by_row :
        (b : Bool)
        → (b ≡ true → same_project p x ≡ false)
        → find (same_project p) (stored r xs) ≡ find (same_project p) xs
        → (if same_project p (if b then overwrite r x else x)
            then some (if b then overwrite r x else x)
            else find (same_project p) (stored r xs))
          ≡ (if same_project p x then some x else find (same_project p) xs)
    by_row true other ih =
        ap (λ b. if b then some (overwrite r x) else find (same_project p) (stored r xs))
          (other refl)
        ∙ ih
        ∙ ap (λ b. if b then some x else find (same_project p) xs) (sym (other refl))
    by_row false other ih = ap (λ o. if same_project p x then some x else o) ih

find-added :
    (q : Repository → Bool) (y : Repository) (xs : List Repository)
    → find q (xs ++ y ∷ [])
      ≡ elim (find q xs) [ some x ↦ some x | none ↦ (if q y then some y else none) ]
find-added q y [] = refl
find-added q y (x ∷ xs) = by_row (q x) (find-added q y xs)
  where
    by_row :
        (b : Bool)
        → find q (xs ++ y ∷ [])
          ≡ elim (find q xs) [ some x ↦ some x | none ↦ (if q y then some y else none) ]
        → (if b then some x else find q (xs ++ y ∷ [])) ≡ elim (if b then some x else find q xs) [
          | some x ↦ some x
          | none ↦ (if q y then some y else none)
        ]
    by_row true ih = refl
    by_row false ih = ih

-- What is stored for a project, and what for the others.
abbrev Stored : String → Repository → Repository → Db → Db → Type 0
Stored id r s d d' =
    (find (same_project r) d'.repositories ≡ some s)
    × (s.api_token ≡ r.api_token)
    × (s.id ≡ id)
    × ((p : Repository)
        → same_project r p ≡ false
        → find (same_project p) d'.repositories ≡ find (same_project p) d.repositories)

-- The identifier that the project's row has, or else that of the repository.
abbrev pub kept_id : Repository → Option Repository → String
kept_id r (some old) = old.id
kept_id r none = r.id

abbrev replaced : Repository → Db → Db
replaced r d = record d { repositories = stored r d.repositories }

abbrev added : Repository → Db → Db
added r d = record d { repositories = d.repositories ++ r ∷ [] }

replaced-Stored :
    (r old : Repository) (d : Db)
    → find (same_project r) d.repositories ≡ some old
    → Stored old.id r (overwrite r old) d (replaced r d)
replaced-Stored r old d found =
    (find-stored r old d.repositories found, refl, refl, λ p. find-others r p d.repositories)

found_in_added :
    (r : Repository) (o : Option Repository) (q : Repository → Bool) (b : Bool)
    → q r ≡ b
    → elim o [ some x ↦ some x | none ↦ (if q r then some r else none) ]
      ≡ elim o [ some x ↦ some x | none ↦ (if b then some r else none) ]
found_in_added r (some x) q b e = refl
found_in_added r none q b e = ap (λ b. if b then some r else none) e

or_none : (o : Option Repository) → elim o [ some x ↦ some x | none ↦ none ] ≡ o
or_none (some x) = refl
or_none none = refl

added-Stored :
    (r : Repository) (d : Db)
    → find (same_project r) d.repositories ≡ none
    → Stored r.id r r d (added r d)
added-Stored r d absent = (
  find-added (same_project r) r d.repositories
      ∙ found_in_added r (find (same_project r) d.repositories) (same_project r) true
          (same_project_self r)
      ∙ ap (λ (o : Option Repository). elim o [ some x ↦ some x | none ↦ some r ]) absent,
  refl,
  refl,
  λ p apart.
      find-added (same_project p) r d.repositories
      ∙ found_in_added r (find (same_project p) d.repositories) (same_project p) false
          (same_project-apart r p r apart (same_project_self r))
      ∙ or_none (find (same_project p) d.repositories),
)

overwrite_or_insert-Stored :
    (r s : Repository) (d d' : Db) (o : Option Repository)
    → find (same_project r) d.repositories ≡ o
    → overwrite_or_insert r d o ≡ some (s, d')
    → Stored (kept_id r o) r s d d'
overwrite_or_insert-Stored r s d d' (some old) found e =
    subst (λ (p : Repository × Db). Stored old.id r p.0 d p.1) (eq_of_some e)
      (replaced-Stored r old d found)
overwrite_or_insert-Stored r s d d' none absent e = by_id (has_repository r.id d) e
  where
    by_id :
        (b : Bool)
        → (if◌then◌else◌ {A = Option (Repository × Db)} b none (some (r, added r d))) ≡ some (s, d')
        → Stored r.id r s d d'
    by_id true e = cc
    by_id false e =
        subst (λ (p : Repository × Db). Stored r.id r p.0 d p.1) (eq_of_some e)
          (added-Stored r d absent)

exec_returning-ok :
    {A : Type 0} (f : Db → Option (A × Db)) (w w' : World) {a : A}
    → exec_returning f w ≡ (ok a, w')
    → f w.db ≡ some (a, w'.db)
unfolding exec_returning
exec_returning-ok f w w' e = ground arith

-- Where `Upsert` succeeds, the repository that it returns is the one that the database then has for
-- the project, with the token given, empty or not, and with the identifier that the project had
-- before, if it had one; the row of every other project is as before.
pub upsert-stored :
    (r s : Repository) (w w' : World)
    → upsert r w ≡ (ok s, w')
    → (find (same_project r) w'.db.repositories ≡ some s)
      × (s.api_token ≡ r.api_token)
      × (s.id ≡ kept_id r (find (same_project r) w.db.repositories))
      × ((p : Repository)
          → same_project r p ≡ false
          → find (same_project p) w'.db.repositories ≡ find (same_project p) w.db.repositories)
unfolding upsert
upsert-stored r s w w' e =
    let row = exec_returning-ok _ w w' (wrap-ok _ _ w w' e) in
    overwrite_or_insert-Stored r s w.db w'.db (find (same_project r) w.db.repositories) refl row
