-- ===== src/Database/Usernames.antt =====
-- Platform usernames written row by row and read again: `loadPlatformUsernames` of pgx_user_repo.go and
-- the loop over a user's map in `Restore` of pgx_backup_repo.go.
use contribution_tracker.Prelude.{
  String, ◌≡◌, refl, ap, ◌∙◌, ◌≤◌, Bool, true, false, inl, inr, List, [], ◌∷◌, ◌++◌, ◌==◌, All, map,
  count, lookup, insert, if◌then◌else◌, arith, eq_iff, Bool-cases,
}
use mathlib.Core.List.{Permᴰ, flatten}
use contribution_tracker.Database.Entries.{
  entries, entries-insert, entries-perm, assigned, lookup-assigned, lookup-perm, or_none,
}
use contribution_tracker.Database.Schema.{Db, UserRow, PlatformRow, has_user}
use contribution_tracker.Database.Users.{add_platforms, platform_map}
use contribution_tracker.Database.Backups.{platform_row}

pub entries-add_platforms :
    (k id : String) (rows : List PlatformRow) (m : List (String × String))
    → entries k m ≤ 1
    → entries k (add_platforms id m rows) ≤ 1
entries-add_platforms k id [] m h = h
entries-add_platforms k id (p ∷ ps) m h =
    entries-add_platforms k id ps (if p.user_id == id then insert p.platform p.username m else m)
      (by_user (p.user_id == id))
  where
    by_user : (b : Bool) → entries k (if b then insert p.platform p.username m else m) ≤ 1
    by_user true = entries-insert k p.platform p.username m h
    by_user false = h

add_platforms-append :
    (id : String) (xs : List PlatformRow) (m : List (String × String)) (ys : List PlatformRow)
    → add_platforms id m (xs ++ ys) ≡ add_platforms id (add_platforms id m xs) ys
add_platforms-append id [] m ys = refl
add_platforms-append id (x ∷ xs) m ys =
    add_platforms-append id xs (if x.user_id == id then insert x.platform x.username m else m) ys

-- The rows of one user, for the same user or another.
add_platforms-own :
    (id u : String) (es m : List (String × String))
    → (u == id) ≡ true
    → add_platforms id m (map (platform_row u) es) ≡ assigned m es
add_platforms-own id u [] m e = refl
add_platforms-own id u (x ∷ es) m e =
    ap (λ b. add_platforms id (if b then insert x.0 x.1 m else m) (map (platform_row u) es)) e
    ∙ add_platforms-own id u es (insert x.0 x.1 m) e

add_platforms-other :
    (id u : String) (es m : List (String × String))
    → (u == id) ≡ false
    → add_platforms id m (map (platform_row u) es) ≡ m
add_platforms-other id u [] m e = refl
add_platforms-other id u (x ∷ es) m e =
    ap (λ b. add_platforms id (if b then insert x.0 x.1 m else m) (map (platform_row u) es)) e
    ∙ add_platforms-other id u es m e

-- No rows of a user that there is not.
pub platform_map-unknown :
    (id : String) (d : Db) (rows : List PlatformRow)
    → All (λ p. has_user p.user_id d ≡ true) rows
    → has_user id d ≡ false
    → platform_map id rows ≡ []
platform_map-unknown id d [] h e = refl
platform_map-unknown id d (p ∷ ps) (h, hs) e =
    ap (λ b. add_platforms id (if b then insert p.platform p.username [] else []) ps)
      (apart (p.user_id == id) ((eq_iff p.user_id id).0))
    ∙ platform_map-unknown id d ps hs e
  where
    apart : (b : Bool) → (b ≡ true → p.user_id ≡ id) → b ≡ false
    apart true same = cc (same refl, h, e)
    apart false same = refl

-- The rows that are written for each user, in some order of the entries of its map.
abbrev pub written :
    (List (String × String) → List (String × String))
    → (String → List (String × String))
    → List UserRow
    → List PlatformRow
written visit maps rs = flatten (map (λ r. map (platform_row r.id) (visit (maps r.id))) rs)

module _ (visit : List (String × String) → List (String × String))
    (once : (m : List (String × String)) → Permᴰ (visit m) m)
    (maps : String → List (String × String))
    (single : (u k : String) → entries k (maps u) ≤ 1) where
  pub written-none :
      (id : String) (rs : List UserRow) (m : List (String × String))
      → count (λ r. r.id == id) rs ≡ 0
      → add_platforms id m (written visit maps rs) ≡ m
  unfolding flatten
  written-none id [] m e = refl
  written-none id (r ∷ rs) m e =
      add_platforms-append id (map (platform_row r.id) (visit (maps r.id))) m
        (written visit maps rs)
      ∙ ap (λ l. add_platforms id l (written visit maps rs))
          (add_platforms-other id r.id (visit (maps r.id)) m (ground (arith, e)))
      ∙ written-none id rs m (ground (arith, e))

  pub written-one :
      (id k : String) (rs : List UserRow)
      → count (λ r. r.id == id) rs ≡ 1
      → lookup k (platform_map id (written visit maps rs)) ≡ lookup k (maps id)
  unfolding flatten
  written-one id k [] e = ground arith
  written-one id k (r ∷ rs) e = elim (Bool-cases (r.id == id)) [
    | inl own ↦
        ap (lookup k) (
          add_platforms-append id (map (platform_row r.id) (visit (maps r.id))) []
            (written visit maps rs)
          ∙ ap (λ l. add_platforms id l (written visit maps rs))
              (add_platforms-own id r.id (visit (maps r.id)) [] own)
          ∙ written-none id rs (assigned [] (visit (maps r.id))) (ground (arith, e, own)))
        ∙ lookup-assigned k [] (visit (maps r.id))
            (omega (arith, entries-perm k (once (maps r.id)), single r.id k))
        ∙ or_none (lookup k (visit (maps r.id)))
        ∙ lookup-perm k (once (maps r.id))
            (omega (arith, entries-perm k (once (maps r.id)), single r.id k))
        ∙ ap (λ i. lookup k (maps i)) ((eq_iff r.id id).0 own)
    | inr other ↦
        ap (lookup k) (
          add_platforms-append id (map (platform_row r.id) (visit (maps r.id))) []
            (written visit maps rs)
          ∙ ap (λ l. add_platforms id l (written visit maps rs))
              (add_platforms-other id r.id (visit (maps r.id)) [] other))
        ∙ written-one id k rs (ground (arith, e, other))
  ]
