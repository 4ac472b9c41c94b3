-- ===== src/Examples/Backups.antt =====
-- The properties of the backup at the small database and the small file.
use contribution_tracker.Prelude.{
  String, ◌≡◌, refl, sym, ap, ◌∙◌, false, some, eq_iff, Bool-cases, inl, inr, ◌⊎◌, ◌==◌, Bool, true,
  [], ◌∷◌, ◌+◌, ◌≤◌, if◌then◌else◌, arith,
}
use mathlib.Core.List.{flatten}
use mathlib.Core.List.Permᴰ
use text.Mathlib.TextLemmas.{nil-append, cons-append, cons-ne-nil}
use contribution_tracker.Domain.{BackupFile}
use contribution_tracker.Database.Schema.{Db}
use contribution_tracker.Database.Session.{ok, err}
use contribution_tracker.Database.Calm.{calm}
use contribution_tracker.Database.Backups.{export, restore}
use contribution_tracker.Database.Restored.{restored_db, restore-cases}
use contribution_tracker.Database.Accepting.{IsConsistent}
use contribution_tracker.Database.Accepted.{restore_accepted}
use contribution_tracker.Database.Copies.{IsCopy, IsKeyed}
use contribution_tracker.Database.RoundTrip.{export-restore}
use contribution_tracker.Examples.Data.{marked, small_db, small_file, small_world}

small_file-IsConsistent :
    IsConsistent marked.is_text (restored_db marked (λ m. m) small_file small_db)
unfolding flatten
small_file-IsConsistent = record {
  users = ((refl, tt), (tt, tt));
  platforms = (tt, tt);
  accounts = (tt, tt);
  account_users = (refl, tt);
  account_roles = (refl, tt);
  repositories = (tt, tt);
  tokens = (refl, tt);
  teams = (tt, tt);
  leaders = (tt, tt);
  leader_users = (refl, tt);
  members = ((refl, tt), (tt, tt));
  member_users = (refl, (refl, tt));
  team_repositories = (tt, tt);
  linked_repositories = (refl, tt);
  config = (tt, tt);
}

restore_accepted_example : restore marked (λ m. m) small_file small_world ≡ (
  ok tt,
  calm (restored_db marked (λ m. m) small_file small_db) "refused" "no rows in result set",
)
restore_accepted_example =
    restore_accepted marked (λ m. m) small_file small_db small_file-IsConsistent "refused"
      "no rows in result set"

restore-cases_example :
    ((e : String) × ((restore marked (λ m. m) small_file small_world).0 ≡ err e)
      × ((restore marked (λ m. m) small_file small_world).1.db ≡ small_db))
    ⊎ (((restore marked (λ m. m) small_file small_world).0 ≡ ok tt)
        × ((restore marked (λ m. m) small_file small_world).1.db
            ≡ restored_db marked (λ m. m) small_file small_db))
restore-cases_example = restore-cases marked (λ m. m) small_file small_world

marked_back : (s : String) → marked.decode (marked.encode s) ≡ some s
marked_back s = ap marked.decode (cons-append "=" "" s ∙ ap (String.◌∷◌ "=") (nil-append s))

marked_filled : (s : String) → (s == "") ≡ false → (marked.encode s == "") ≡ false
marked_filled s e =
    ap (λ t. t == "") (cons-append "=" "" s ∙ ap (String.◌∷◌ "=") (nil-append s))
    ∙ elim (Bool-cases (String.◌∷◌ "=" s == "")) [
      | inl empty ↦ absurd (cons-ne-nil "=" s ((eq_iff (String.◌∷◌ "=" s) "").0 empty))
      | inr filled ↦ filled
    ]

-- A row whose identifier is not asked for does not count.
at_most :
    (b c : Bool)
    → ¬ ((b ≡ true) × (c ≡ true))
    → (if b then 1 else 0) + ((if c then 1 else 0) + 0) ≤ 1
at_most b c h = ground (arith, h)

-- The small database with a username of Ann's on a platform.
abbrev named_db : Db
named_db = record small_db {
  platform_usernames = record { user_id = "u-ann"; platform = "GITHUB"; username = "ann" } ∷ [];
  app_config = ("theme", "dark") ∷ [];
}

named_db-IsKeyed : IsKeyed named_db
named_db-IsKeyed = record {
  users = λ u. at_most ("u-ann" == u) ("u-bob" == u) (λ (ann, bob).
      let both : ("u-ann" == "u-bob") ≡ true =
        (eq_iff "u-ann" "u-bob").1 ((eq_iff "u-ann" u).0 ann ∙ sym ((eq_iff "u-bob" u).0 bob)) in
      cc both);
  config = λ k. ground arith;
  teams = λ t. ground arith;
  platforms = (refl, tt);
  leaders = (refl, tt);
  members = (refl, (refl, tt));
  repositories = (refl, (refl, tt));
}

export-restore_example :
    (f : BackupFile) × ((export marked 7 (calm named_db "refused" "no rows in result set")).0
      ≡ ok f)
    × (((e : String) × ((restore marked (λ m. m) f small_world).0 ≡ err e)
          × ((restore marked (λ m. m) f small_world).1.db ≡ small_db))
        ⊎ (((restore marked (λ m. m) f small_world).0 ≡ ok tt)
            × IsCopy named_db (restore marked (λ m. m) f small_world).1.db))
export-restore_example =
    export-restore marked marked_back marked_filled (λ m. m) (λ m. Permᴰ.refl m) 7 named_db
      "refused" "no rows in result set" small_world named_db-IsKeyed
