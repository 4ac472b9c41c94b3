-- ===== src/Access/Tokens.antt =====
-- What `Validate` of auth_service.go has checked when it accepts a token.
use contribution_tracker.Prelude.{
  ℕ, String, ◌≡◌, refl, sym, ap, ◌∙◌, Bool, true, false, Option, some, none, find, ◌==◌,
  if◌then◌else◌,
}
use mathlib.Core.Path.{subst}
use contribution_tracker.Domain.{User, UserAccount}
use contribution_tracker.Database.Schema.{Db, UserRow, AccountRow}
use contribution_tracker.Database.Session.{Result, ok, err, World}
use contribution_tracker.Database.Success.{bind-ok, wrap-ok, query_row-ok, query-ok, pure-ok}
use contribution_tracker.Database.Accounts
use contribution_tracker.Database.Users
use contribution_tracker.Auth.{
  AuthContext, roles_of_claims, key_for, context, validate, with_owner, with_user, with_claims,
  with_token,
}
use contribution_tracker.Auth.Library.{Claims, Jwt, Secret, Token}

-- A token that parses as valid, whose subject is an account with a user, gives its caller's context.
pub record IsVouched (jwt : Jwt) (secret : Secret) (now : ℕ) (text : String) (d : Db)
    (c : AuthContext) : Type 0 where
  pub token : Token
  pub claims : Claims
  pub account : AccountRow
  pub user : UserRow
  pub parsed : jwt.parse now (key_for secret) text ≡ some token
  pub valid : token.valid ≡ true
  pub claimed : token.claims ≡ some claims
  pub has_subject : (claims.subject == "") ≡ false
  pub known_account : find (λ a. a.id == claims.subject) d.accounts ≡ some account
  pub same_account : c.account_id ≡ account.id
  pub known_user : Users.user_of_account claims.subject d ≡ some user
  pub same_user : c.user_id ≡ user.id
  pub same_roles : c.roles ≡ roles_of_claims claims.roles

load_user-ok :
    (r : UserRow) (w w' : World) (u : User)
    → Users.load_user r w ≡ (ok u, w')
    → (u.id ≡ r.id) × (w'.db ≡ w.db)
unfolding Users.load_user
load_user-ok r w w' u e =
    let (_, w1, e1, k1) = bind-ok _ _ w w' e in
    let (_, s1) = query-ok _ w w1 (wrap-ok _ _ w w1 e1) in
    let (same, s2) = pure-ok _ u w1 w' k1 in
    (ap (λ u. u.id) (sym same), ap (λ w. w.db) (sym s2) ∙ s1)

user-ok :
    (id : String) (w w' : World) (u : User)
    → Users.find_by_account_id id w ≡ (ok u, w')
    → (r : UserRow) × (Users.user_of_account id w.db ≡ some r) × (u.id ≡ r.id)
unfolding Users.find_by_account_id
user-ok id w w' u e =
    let (r, w1, e1, k1) = bind-ok _ _ w w' e in
    let (found, _) = query_row-ok _ w w1 (wrap-ok _ _ w w1 e1) in
    (r, found, (load_user-ok r w1 w' u k1).0)

account-ok :
    (id : String) (w w' : World) (a : UserAccount)
    → Accounts.find_by_id id w ≡ (ok a, w')
    → (r : AccountRow) × (find (λ a. a.id == id) w.db.accounts ≡ some r)
      × (a.id ≡ r.id)
      × (w'.db ≡ w.db)
unfolding Accounts.find_by_id
account-ok id w w' a e =
    let (r, w1, e1, k1) = bind-ok _ _ w w' e in
    let (found, s1) = query_row-ok _ w w1 (wrap-ok _ _ w w1 e1) in
    let (same, s2) = pure-ok _ a w1 w' k1 in
    (r, found, ap (λ a. a.id) (sym same), ap (λ w. w.db) (sym s2) ∙ s1)

with_user-ok :
    (claims : Claims) (a : UserAccount) (r : Result User) (w w' : World) (c : AuthContext)
    → with_user claims a r w ≡ (ok c, w')
    → (u : User) × (r ≡ ok u)
      × (c.account_id ≡ a.id)
      × (c.user_id ≡ u.id)
      × (c.roles ≡ roles_of_claims claims.roles)
with_user-ok claims a (err _) w w' c e = cc
with_user-ok claims a (ok u) w w' c e = (u, refl, cc, cc, cc)

with_owner-ok :
    (claims : Claims) (r : Result UserAccount) (w w' : World) (c : AuthContext)
    → with_owner claims r w ≡ (ok c, w')
    → (a : UserAccount) × (r ≡ ok a)
      × (with_user claims a
            (Users.find_by_account_id claims.subject w).0
            (Users.find_by_account_id claims.subject w).1
          ≡ (ok c, w'))
with_owner-ok claims (err _) w w' c e = cc
with_owner-ok claims (ok a) w w' c e = (a, refl, e)

with_claims-ok :
    (o : Option Claims) (w w' : World) (c : AuthContext)
    → with_claims o w ≡ (ok c, w')
    → (claims : Claims) × (o ≡ some claims)
      × ((claims.subject == "") ≡ false)
      × (context claims w ≡ (ok c, w'))
with_claims-ok none w w' c e = cc
with_claims-ok (some claims) w w' c e =
    let (empty, rest) = tested (claims.subject == "") e in (claims, refl, empty, rest)
  where
    tested :
        (b : Bool)
        → (if b then (err "missing subject", w) else context claims w) ≡ (ok c, w')
        → (b ≡ false) × (context claims w ≡ (ok c, w'))
    tested true e = cc
    tested false e = (refl, e)

with_token-ok :
    (o : Option Token) (w w' : World) (c : AuthContext)
    → with_token o w ≡ (ok c, w')
    → (t : Token) × (o ≡ some t) × (t.valid ≡ true) × (with_claims t.claims w ≡ (ok c, w'))
with_token-ok none w w' c e = cc
with_token-ok (some t) w w' c e = let (valid, rest) = tested t.valid e in (t, refl, valid, rest)
  where
    tested :
        (b : Bool)
        → (if b then with_claims t.claims w else (err "invalid token", w)) ≡ (ok c, w')
        → (b ≡ true) × (with_claims t.claims w ≡ (ok c, w'))
    tested true e = (refl, e)
    tested false e = cc

-- `Validate` accepts a token only if it parses as valid with the secret, its subject is no empty
-- text, an account of the database has that identifier and a user of the database owns it; the
-- context names this account and user, and its roles are those of the token.
pub validate-IsVouched :
    (jwt : Jwt) (secret : Secret) (now : ℕ) (text : String) (w w' : World) (c : AuthContext)
    → validate jwt secret now text w ≡ (ok c, w')
    → IsVouched jwt secret now text w.db c
unfolding validate context
validate-IsVouched jwt secret now text w w' c e =
    let (t, parsed, valid, e1) = with_token-ok (jwt.parse now (key_for secret) text) w w' c e in
    let (claims, claimed, subject, e2) = with_claims-ok t.claims w w' c e1 in
    let (a, e3, e4) =
      with_owner-ok claims (Accounts.find_by_id claims.subject w).0
        (Accounts.find_by_id claims.subject w).1 w' c e2 in
    let w1 : World = (Accounts.find_by_id claims.subject w).1 in
    let (u, e5, same_a, same_u, roles) =
      with_user-ok claims a (Users.find_by_account_id claims.subject w1).0
        (Users.find_by_account_id claims.subject w1).1 w' c e4 in
    let (ra, found_a, id_a, back) = account-ok claims.subject w w1 a (ap (λ r. (r, w1)) e3) in
    let (ru, found_u, id_u) =
      user-ok claims.subject w1 (Users.find_by_account_id claims.subject w1).1 u
        (ap (λ r. (r, (Users.find_by_account_id claims.subject w1).1)) e5) in
    record {
      token = t;
      claims = claims;
      account = ra;
      user = ru;
      parsed = parsed;
      valid = valid;
      claimed = claimed;
      has_subject = subject;
      known_account = found_a;
      same_account = same_a ∙ id_a;
      known_user = subst (λ d. Users.user_of_account claims.subject d ≡ some ru) back found_u;
      same_user = same_u ∙ id_u;
      same_roles = roles;
    }
