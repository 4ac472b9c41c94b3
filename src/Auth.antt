-- ===== src/Auth.antt =====
-- src/internal/application/auth_service.go: `AuthService`. The JWT and bcrypt libraries are parameters.
pub mod Library
use contribution_tracker.Prelude.{
  ℕ, ◌+◌, String, Bool, true, false, Option, none, some, List, [], ◌∷◌, ◌==◌, if◌then◌else◌, insert,
  flag,
}
use contribution_tracker.Domain.{RoleSet, User, UserAccount, keys, role_admin}
use contribution_tracker.Database.Session.{Result, ok, err, World, Sql, fail, pure}
use contribution_tracker.Database.Accounts
use contribution_tracker.Database.Users
use Library.{Claims, Token, Secret, Jwt}

pub record AuthToken : Type 0 where
  pub value : String
  pub expires_at : ℕ
  pub account_id : String
  pub roles : RoleSet

pub record AuthContext : Type 0 where
  pub account_id : String
  pub user_id : String
  pub roles : RoleSet

abbrev pub is_admin : AuthContext → Bool
is_admin c = flag role_admin c.roles

-- `24 * time.Hour`, in seconds.
abbrev pub lifetime : ℕ
lifetime = 86400

-- The key function given to `jwt.Parse`: only an HMAC method gets the secret.
abbrev pub key_for : Secret → Bool → Option Secret
key_for secret true = some secret
key_for secret false = none

-- The claim "roles": entries that are no texts are passed over.
abbrev pub claimed_roles : RoleSet → List (Option String) → RoleSet
claimed_roles roles [] = roles
claimed_roles roles (none ∷ rs) = claimed_roles roles rs
claimed_roles roles (some r ∷ rs) = claimed_roles (insert r true roles) rs

abbrev pub roles_of_claims : Option (List (Option String)) → RoleSet
roles_of_claims none = []
roles_of_claims (some rs) = claimed_roles [] rs

abbrev pub as_claims : List String → List (Option String)
as_claims [] = []
as_claims (r ∷ rs) = some r ∷ as_claims rs

abbrev pub claims_of : UserAccount → ℕ → Claims
claims_of account now = record {
  subject = account.id;
  roles = some (as_claims (keys account.roles));
  exp = now + lifetime;
  iat = now;
}

-- `compare` is `bcrypt.CompareHashAndPassword`, and `now` the time of the call.
module _ (jwt : Jwt) (secret : Secret) where
  abbrev pub signed : UserAccount → ℕ → Option String → Sql AuthToken
  signed account now none w = (err "failed to sign token", w)
  signed account now (some text) w = (
    ok (record {
      value = text;
      expires_at = now + lifetime;
      account_id = account.id;
      roles = account.roles;
    }),
    w,
  )

  abbrev pub with_account :
      (String → String → Bool) → ℕ → String → Result UserAccount → Sql AuthToken
  with_account compare now password (err _) w = (err "invalid credentials", w)
  with_account compare now password (ok account) w =
      if compare account.password_hash password
      then signed account now (jwt.sign secret (claims_of account now)) w
      else (err "invalid credentials", w)

  unfoldable pub login : (String → String → Bool) → ℕ → String → String → Sql AuthToken
  login compare now username password w =
      let (found, w') = Accounts.find_by_username username w in
      with_account compare now password found w'

-- The end of `Validate`: the account and its user are looked up, the roles are the token's.
abbrev pub with_user : Claims → UserAccount → Result User → Sql AuthContext
with_user claims a (err _) w = (err "user not found", w)
with_user claims a (ok u) w =
    (ok (record { account_id = a.id; user_id = u.id; roles = roles_of_claims claims.roles }), w)

abbrev pub with_owner : Claims → Result UserAccount → Sql AuthContext
with_owner claims (err _) w = (err "account not found", w)
with_owner claims (ok a) w =
    let (user, w') = Users.find_by_account_id claims.subject w in with_user claims a user w'

unfoldable pub context : Claims → Sql AuthContext
context claims w =
    let (account, w') = Accounts.find_by_id claims.subject w in with_owner claims account w'

abbrev pub with_claims : Option Claims → Sql AuthContext
with_claims none w = (err "invalid claims", w)
with_claims (some claims) w =
    if claims.subject == "" then (err "missing subject", w) else context claims w

abbrev pub with_token : Option Token → Sql AuthContext
with_token none w = (err "invalid token", w)
with_token (some t) w = if t.valid then with_claims t.claims w else (err "invalid token", w)

unfoldable pub validate : Jwt → Secret → ℕ → String → Sql AuthContext
validate jwt secret now text = with_token (jwt.parse now (key_for secret) text)
