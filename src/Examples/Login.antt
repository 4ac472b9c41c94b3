-- ===== src/Examples/Login.antt =====
-- A login of Ann, and her token a second later.
use contribution_tracker.Prelude.{
  String, ◌≡◌, refl, sym, ap, ◌∙◌, Bool, true, false, ◌&&◌, Option, some, none, List, [], ◌∷◌, ◌==◌,
  eqb, eq_iff, eq_of_some, arith, find, if◌then◌else◌, contains, flag,
}
use mathlib.Core.Path.{subst}
use contribution_tracker.Domain.{Role, role_admin}
use contribution_tracker.Database.Schema.{AccountRow, UserRow}
use contribution_tracker.Database.Session
use contribution_tracker.Database.Session.{ok}
use contribution_tracker.Database.Accounts
use contribution_tracker.Database.Users
use contribution_tracker.Auth.{AuthContext, AuthToken, login, validate}
use contribution_tracker.Auth.Library.{Claims, Jwt}
use contribution_tracker.Access.Login.{IsSound, Verifies, login-validate}
use contribution_tracker.Examples.Data.{
  small_db, small_world, claims_for, token_for, ann, ann_account,
}

abbrev only_admin : Option (List (Option String)) → Bool
only_admin (some (some r ∷ [])) = r == role_admin
only_admin _ = false

abbrev is_plain : Claims → Bool
is_plain c = only_admin c.roles && (eqb c.exp 86400 && eqb c.iat 0)

-- It signs only what it can read again.
abbrev strict_jwt : Jwt
strict_jwt = record {
  sign = λ secret claims. if is_plain claims then some claims.subject else none;
  parse = λ now key text. token_for (key true) text;
}

only_admin-eq :
    (o : Option (List (Option String))) → only_admin o ≡ true → o ≡ some (some role_admin ∷ [])
only_admin-eq none e = cc
only_admin-eq (some []) e = cc
only_admin-eq (some (none ∷ rs)) e = cc
only_admin-eq (some (some r ∷ [])) e = ap (λ r. some (some r ∷ [])) ((eq_iff r role_admin).0 e)
only_admin-eq (some (some r ∷ s ∷ rs)) e = cc

plain-eq : (c : Claims) → is_plain c ≡ true → c ≡ claims_for c.subject
plain-eq c e =
    let roles : c.roles ≡ some (some role_admin ∷ []) = only_admin-eq c.roles (ground arith) in
    let exp : c.exp ≡ 86400 = ground arith in
    let iat : c.iat ≡ 0 = ground arith in
    λ i. record { subject = c.subject; roles = roles i; exp = exp i; iat = iat i }

strict_jwt-Verifies : Verifies strict_jwt
strict_jwt-Verifies secret claims text now e early =
    let plain : is_plain claims ≡ true = ground arith in
    let same : claims.subject ≡ text = ground arith in
    (
      record { valid = true; claims = some (claims_for text) },
      refl,
      refl,
      ap (λ s. some (claims_for s)) (sym same) ∙ ap some (sym (plain-eq claims plain)),
    )

found-ann :
    (name : String) (a : AccountRow)
    → find (λ a. a.username == name) small_db.accounts ≡ some a
    → ann_account ≡ a
found-ann name a e = by_name ("ann" == name) e
  where
    by_name : (b : Bool) → (if b then some ann_account else none) ≡ some a → ann_account ≡ a
    by_name true e = eq_of_some e
    by_name false e = cc

small_db-IsSound : IsSound small_db
small_db-IsSound = record {
  named = λ name a e. subst (λ (a : AccountRow). (a.id == "") ≡ false) (found-ann name a e) refl;
  keyed = λ name a e.
      subst (λ (a : AccountRow). find (λ b. b.id == a.id) small_db.accounts ≡ some a)
        (found-ann name a e) refl;
  owned = λ name a e.
      subst (λ (a : AccountRow). (u : UserRow) × (Users.user_of_account a.id small_db ≡ some u))
        (found-ann name a e) (ann, refl);
}

abbrev ann_token : AuthToken
ann_token = record {
  value = "a-ann";
  expires_at = 86400;
  account_id = "a-ann";
  roles = (role_admin, true) ∷ [];
}

logged_in : (login strict_jwt "secret" (λ a b. a == b) 0 "ann" "h" small_world).0 ≡ ok ann_token
unfolding login Accounts.find_by_username Session.◌>>=◌ Session.pure Session.wrap Session.query_row
logged_in = refl

login-validate_example :
    (c : AuthContext) × ((validate strict_jwt "secret" 1 "a-ann" small_world).0 ≡ ok c)
    × (c.account_id ≡ "a-ann")
    × ((r : Role) → flag r c.roles ≡ contains r (role_admin ∷ []))
login-validate_example =
    login-validate strict_jwt "secret" (λ a b. a == b) 0 1 "ann" "h" small_db "refused"
      "no rows in result set" ann_token strict_jwt-Verifies small_db-IsSound (omega arith) logged_in
