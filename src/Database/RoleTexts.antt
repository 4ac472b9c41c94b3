-- ===== src/Database/RoleTexts.antt =====
-- How an account's roles come back from the database: `rolesToStrings` and `stringsToRoles` of
-- pgx_user_account_repo.go.
use contribution_tracker.Prelude.{
  String, ◌≡◌, refl, ap, ◌∙◌, Bool, true, false, ◌||◌, some, none, List, [], ◌∷◌, ◌==◌, arith,
  contains, flag, insert, lookup, lookup-insert, if◌then◌else◌,
}
use contribution_tracker.Domain.{Role, RoleSet, UserAccount, has_role, role_list, keys}
use contribution_tracker.Database.Accounts.{account_row, scan_account, add_roles}

flag-insert : (r s : Role) (m : RoleSet) → flag r (insert s true m) ≡ ((s == r) || flag r m)
flag-insert r s m = by_key (s == r) (lookup-insert s r true m)
  where
    by_key :
        (b : Bool)
        → lookup r (insert s true m) ≡ (if b then some true else lookup r m)
        → flag r (insert s true m) ≡ (b || flag r m)
    by_key true e = ap (λ o. elim o [ none ↦ false | some b ↦ b ]) e
    by_key false e = ap (λ o. elim o [ none ↦ false | some b ↦ b ]) e

pub flag-add_roles :
    (r : Role) (m : RoleSet) (ss : List String)
    → flag r (add_roles m ss) ≡ (contains r ss || flag r m)
flag-add_roles r m [] = refl
flag-add_roles r m (s ∷ ss) =
    flag-add_roles r (insert s true m) ss
    ∙ ap (λ b. contains r ss || b) (flag-insert r s m)
    ∙ shuffled (contains r ss) (s == r) (flag r m)
  where
    shuffled : (a b c : Bool) → (a || (b || c)) ≡ ((b || a) || c)
    shuffled a b c = ground arith

-- An account that is stored and read again has exactly the roles that are keys of its map: a key
-- whose value was false comes back as a role that is held.
pub has_role-stored :
    (a : UserAccount) (r : Role)
    → has_role (scan_account (account_row a)) r ≡ contains r (role_list a)
unfolding has_role role_list
has_role-stored a r = flag-add_roles r [] (keys a.roles) ∙ or_false (contains r (keys a.roles))
  where
    or_false : (b : Bool) → (b || false) ≡ b
    or_false b = ground arith
