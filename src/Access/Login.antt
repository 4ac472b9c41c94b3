-- ===== src/Access/Login.antt =====
-- A token from `Login` of auth_service.go at `Validate`.
use contribution_tracker.Prelude.{
  ℕ, String, ◌≡◌, refl, sym, ap, ◌∙◌, ◌<◌, ◌+◌, Bool, true, false, ◌||◌, Option, some, none, List,
  [], ◌∷◌, find, contains, flag, insert, ◌==◌, if◌then◌else◌,
}
use contribution_tracker.Domain.{Role, RoleSet, UserAccount, keys}
use contribution_tracker.Database.Schema.{Db, AccountRow, UserRow}
use contribution_tracker.Database.Session.{
  Result, ok, err, World, pure, wrap, query, query_row, ◌>>=◌,
}
use contribution_tracker.Database.Success.{bind-ok, wrap-ok, query_row-ok, pure-ok}
use contribution_tracker.Database.Accounts
use contribution_tracker.Database.Accounts.{scan_account, add_roles}
use contribution_tracker.Database.RoleTexts.{flag-add_roles}
use contribution_tracker.Database.Users
use contribution_tracker.Auth.{
  AuthContext, AuthToken, as_claims, claimed_roles, claims_of, context, key_for, lifetime, login,
  roles_of_claims, signed, validate, with_account, with_claims, with_owner, with_token, with_user,
}
use contribution_tracker.Auth.Library.{Claims, Jwt, Secret, Token}
use contribution_tracker.Database.Calm.{calm, loaded_user}

-- What the JWT library promises: a text that was signed parses as valid, with the claims that were
-- signed, until they expire.
abbrev pub Verifies : Jwt → Type 0
Verifies jwt =
    (secret : Secret) (claims : Claims) (text : String) (now : ℕ)
    → jwt.sign secret claims ≡ some text
    → now < claims.exp
    → (t : Token) × (jwt.parse now (key_for secret) text ≡ some t)
      × (t.valid ≡ true)
      × (t.claims ≡ some claims)

-- The primary key and the foreign key of `user_accounts`, for the accounts that a username finds, and
-- that no identifier is the empty text.
pub record IsSound (d : Db) : Type 0 where
  pub named :
      (name : String) (a : AccountRow)
      → find (λ a. a.username == name) d.accounts ≡ some a
      → (a.id == "") ≡ false
  pub keyed :
      (name : String) (a : AccountRow)
      → find (λ a. a.username == name) d.accounts ≡ some a
      → find (λ b. b.id == a.id) d.accounts ≡ some a
  pub owned :
      (name : String) (a : AccountRow)
      → find (λ a. a.username == name) d.accounts ≡ some a
      → (u : UserRow) × (Users.user_of_account a.id d ≡ some u)

claimed-add_roles : (m : RoleSet) (rs : List Role) → claimed_roles m (as_claims rs) ≡ add_roles m rs
claimed-add_roles m [] = refl
claimed-add_roles m (r ∷ rs) = claimed-add_roles (insert r true m) rs

flag-claimed :
    (r : Role) (rs : List Role) → flag r (roles_of_claims (some (as_claims rs))) ≡ contains r rs
flag-claimed r rs =
    ap (flag r) (claimed-add_roles [] rs) ∙ flag-add_roles r [] rs ∙ or_false (contains r rs)
  where
    or_false : (b : Bool) → (b || false) ≡ b
    or_false true = refl
    or_false false = refl

module _ (d : Db) (refusal no_rows : String) where
  abbrev here : World
  here = calm d refusal no_rows

  account-calm :
      (id : String) (r : AccountRow)
      → find (λ a. a.id == id) d.accounts ≡ some r
      → Accounts.find_by_id id here ≡ (ok (scan_account r), here)
  unfolding Accounts.find_by_id ◌>>=◌ pure wrap query_row
  account-calm id r e = rw e

  user-calm :
      (account : String) (u : UserRow)
      → Users.user_of_account account d ≡ some u
      → Users.find_by_account_id account here ≡ (ok (loaded_user d u), here)
  unfolding Users.find_by_account_id Users.load_user ◌>>=◌ pure wrap query query_row
  user-calm account u e = rw e

  -- What `Validate` makes of claims.
  accepted : Claims → AccountRow → UserRow → AuthContext
  accepted claims r u = record {
    account_id = r.id;
    user_id = u.id;
    roles = roles_of_claims claims.roles;
  }

  context-calm :
      (claims : Claims) (r : AccountRow) (u : UserRow)
      → find (λ a. a.id == claims.subject) d.accounts ≡ some r
      → Users.user_of_account claims.subject d ≡ some u
      → context claims here ≡ (ok (accepted claims r u), here)
  unfolding context accepted
  context-calm claims r u e f =
      ap (λ p. with_owner claims p.0 p.1) (account-calm claims.subject r e)
      ∙ ap (λ p. with_user claims (scan_account r) p.0 p.1) (user-calm claims.subject u f)

  validate-calm :
      (jwt : Jwt) (secret : Secret) (now : ℕ) (text : String) (t : Token) (claims : Claims)
      (r : AccountRow) (u : UserRow)
      → jwt.parse now (key_for secret) text ≡ some t
      → t.valid ≡ true
      → t.claims ≡ some claims
      → (claims.subject == "") ≡ false
      → find (λ a. a.id == claims.subject) d.accounts ≡ some r
      → Users.user_of_account claims.subject d ≡ some u
      → validate jwt secret now text here ≡ (ok (accepted claims r u), here)
  unfolding validate
  validate-calm jwt secret now text t claims r u parsed valid claimed subject e f =
      ap (λ o. with_token o here) parsed
      ∙ ap (λ b. if b then with_claims t.claims here else (err "invalid token", here)) valid
      ∙ ap (λ o. with_claims o here) claimed
      ∙ ap (λ b. if b then (err "missing subject", here) else context claims here) subject
      ∙ context-calm claims r u e f

account_by_name-ok :
    (name : String) (w w' : World) (a : UserAccount)
    → Accounts.find_by_username name w ≡ (ok a, w')
    → (r : AccountRow) × (find (λ a. a.username == name) w.db.accounts ≡ some r)
      × (scan_account r ≡ a)
unfolding Accounts.find_by_username
account_by_name-ok name w w' a e =
    let (r, w1, e1, k1) = bind-ok _ _ w w' e in
    let (found, _) = query_row-ok _ w w1 (wrap-ok _ _ w w1 e1) in
    let (same, _) = pure-ok _ a w1 w' k1 in (r, found, same)

signed-ok :
    (jwt : Jwt) (secret : Secret) (a : UserAccount) (now : ℕ) (o : Option String) (w w' : World)
    (token : AuthToken)
    → signed jwt secret a now o w ≡ (ok token, w')
    → (o ≡ some token.value) × (token.account_id ≡ a.id) × (token.roles ≡ a.roles)
signed-ok jwt secret a now none w w' token e = cc
signed-ok jwt secret a now (some text) w w' token e = (cc, cc, cc)

with_account-ok :
    (jwt : Jwt) (secret : Secret) (compare : String → String → Bool) (now : ℕ) (password : String)
    (r : Result UserAccount) (w w' : World) (token : AuthToken)
    → with_account jwt secret compare now password r w ≡ (ok token, w')
    → (a : UserAccount) × (r ≡ ok a)
      × (compare a.password_hash password ≡ true)
      × (jwt.sign secret (claims_of a now) ≡ some token.value)
      × (token.account_id ≡ a.id)
      × (token.roles ≡ a.roles)
with_account-ok jwt secret compare now password (err _) w w' token e = cc
with_account-ok jwt secret compare now password (ok a) w w' token e =
    tested (compare a.password_hash password) refl e
  where
    tested :
        (b : Bool)
        → compare a.password_hash password ≡ b
        → (if b
            then signed jwt secret a now (jwt.sign secret (claims_of a now)) w
            else (err "invalid credentials", w))
          ≡ (ok token, w')
        → (x : UserAccount) × (ok a ≡ ok x)
          × (compare x.password_hash password ≡ true)
          × (jwt.sign secret (claims_of x now) ≡ some token.value)
          × (token.account_id ≡ x.id)
          × (token.roles ≡ x.roles)
    tested true matches e =
        let (text, id, roles) =
          signed-ok jwt secret a now (jwt.sign secret (claims_of a now)) w w' token e in
        (a, refl, matches, text, id, roles)
    tested false matches e = cc

-- Where the JWT library verifies what it signed, the accounts' table is sound and no statement fails:
-- a token that `Login` gives is accepted by `Validate` at any time before it expires, a day after the
-- login, and the context has the token's account and as roles exactly the keys of its roles.
pub login-validate :
    (jwt : Jwt) (secret : Secret) (compare : String → String → Bool) (now later : ℕ)
    (name password : String) (d : Db) (refusal no_rows : String) (token : AuthToken)
    → Verifies jwt
    → IsSound d
    → later < now + lifetime
    → (login jwt secret compare now name password (calm d refusal no_rows)).0 ≡ ok token
    → (c : AuthContext) × ((validate jwt secret later token.value (calm d refusal no_rows)).0
        ≡ ok c)
      × (c.account_id ≡ token.account_id)
      × ((r : Role) → flag r c.roles ≡ contains r (keys token.roles))
unfolding login accepted
login-validate jwt secret compare now later name password d refusal no_rows token law sound early
      e =
    let w : World = calm d refusal no_rows in
    let w1 : World = (Accounts.find_by_username name w).1 in
    let (a, found, _, text, id, roles) =
      with_account-ok jwt secret compare now password (Accounts.find_by_username name w).0 w1
        (login jwt secret compare now name password w).1 token
        (ap (λ r. (r, (login jwt secret compare now name password w).1)) e) in
    let (row, named, same) = account_by_name-ok name w w1 a (ap (λ r. (r, w1)) found) in
    let (u, owner) = sound.owned name row named in
    let claims : Claims = claims_of (scan_account row) now in
    let signed_row : jwt.sign secret claims ≡ some token.value =
      ap (λ a. jwt.sign secret (claims_of a now)) same ∙ text in
    let (t, parsed, valid, claimed) = law secret claims token.value later signed_row early in
    (
      accepted d refusal no_rows claims row u,
      ap (λ p. p.0)
          (validate-calm d refusal no_rows jwt secret later token.value t claims row u parsed valid
            claimed (sound.named name row named) (sound.keyed name row named) owner),
      ap (λ a. a.id) same ∙ sym id,
      λ r.
          flag-claimed r (keys (scan_account row).roles)
          ∙ ap (λ a. contains r (keys a.roles)) same
          ∙ ap (λ rs. contains r (keys rs)) (sym roles),
    )
