-- ===== src/Auth/Library.antt =====
-- The part of github.com/golang-jwt/jwt/v5 that auth_service.go calls, as an interface.
use contribution_tracker.Prelude.{ℕ, String, Bool, Option, List}

abbrev pub Secret : Type 0
Secret = String

-- `jwt.MapClaims`: `roles` is `none` where the claim is missing or no list, and an entry is `none`
-- where it is no text.
pub record Claims : Type 0 where
  pub subject : String
  pub roles : Option (List (Option String))
  pub exp : ℕ
  pub iat : ℕ

-- `*jwt.Token`: `claims` is `none` where they are no `MapClaims`.
pub record Token : Type 0 where
  pub valid : Bool
  pub claims : Option Claims

-- `SignedString` with HS256, and `Parse` at a time, which asks the key function whether the method of
-- the token is an HMAC one. `none` is an error.
pub record Jwt : Type 0 where
  pub sign : Secret → Claims → Option String
  pub parse : ℕ → (Bool → Option Secret) → String → Option Token
