-- ===== src/Report/Outcomes.antt =====
-- How a call of a fetcher ends: as in Go with a value or an error, or else the program has crashed, or
-- the call goes on after the number of pages that was granted to it.
use contribution_tracker.Prelude.{String, Bool, true, false, List, [], ◌∷◌}
use Prim.Native.String

pub data Outcome {ℓ} (A : Type ℓ) : Type ℓ where
  value : A → Outcome A
  error : String → Outcome A
  crashed : Outcome A
  unfinished : Outcome A

-- Whether the caller goes on after it.
abbrev pub ends : {A : Type 0} → Outcome A → Bool
ends (value _) = true
ends (error _) = true
ends crashed = false
ends unfinished = false

infixl 5 ◌>>=◌
abbrev pub ◌>>=◌ : {A B : Type 0} → Outcome A → (A → Outcome B) → Outcome B
value a >>= f = f a
error e >>= f = error e
crashed >>= f = crashed
unfinished >>= f = unfinished

-- `fmt.Errorf("<prefix>: %w", err)`
abbrev pub about : {A : Type 0} → String → Outcome A → Outcome A
about text (value a) = value a
about text (error e) = error (String.◌++◌ text e)
about text crashed = crashed
about text unfinished = unfinished

-- `fmt.Sprintf`, its literal parts and its arguments in order.
abbrev pub text_of : List String → String
text_of [] = ""
text_of (part ∷ parts) = String.◌++◌ part (text_of parts)
