-- ===== src/Database/Session.antt =====
-- A statement, a sequence of statements and a transaction, with the errors that they may meet.
use contribution_tracker.Prelude.{String, Option, none, some, List, [], ◌∷◌}
use Prim.Native.String
use contribution_tracker.Database.Schema.{Db}

-- A value with `err == nil`, or the text of the error.
pub data Result {ℓ} (A : Type ℓ) : Type ℓ where
  ok : A → Result A
  err : String → Result A

-- `refusal` is the text of PostgreSQL's error for a change that a constraint forbids, and
-- `no_rows` that of the driver for a query of one row that finds none.
pub record World : Type 0 where
  pub db : Db
  pub outages : List (Option String)
  pub refusal : String
  pub no_rows : String

abbrev pub Sql {ℓ} : Type ℓ → Type ℓ
Sql A = World → Result A × World

abbrev pub first_outage : List (Option String) → Option String
first_outage [] = none
first_outage (o ∷ os) = o

abbrev pub later_outages : List (Option String) → List (Option String)
later_outages [] = []
later_outages (o ∷ os) = os

abbrev pub next_statement : World → World
next_statement w = record w { outages = later_outages w.outages }

module _ {A : Type 0} where
  unfoldable pub pure : A → Sql A
  pure a w = (ok a, w)

  unfoldable pub fail : String → Sql A
  fail text w = (err text, w)

  -- `fmt.Errorf("<prefix>: %w", err)`
  abbrev pub wrap_result : String → Result A → Result A
  wrap_result text (ok a) = ok a
  wrap_result text (err e) = err (String.◌++◌ text e)

  unfoldable pub wrap : String → Sql A → Sql A
  wrap text m w = let (r, w') = m w in (wrap_result text r, w')

  -- A statement meets its outage, or ends as it would.
  abbrev pub answered : Option String → Result A × World → World → Result A × World
  answered (some text) r w = (err text, w)
  answered none r w = r

  -- `pool.Query` and the loop over its rows.
  unfoldable pub query : (Db → A) → Sql A
  query f w = answered (first_outage w.outages) (ok (f w.db), next_statement w) (next_statement w)

  -- `pool.QueryRow` and `Scan`.
  abbrev pub found_row : Option A → World → Result A × World
  found_row (some a) w = (ok a, w)
  found_row none w = (err w.no_rows, w)

  unfoldable pub query_row : (Db → Option A) → Sql A
  query_row f w =
      answered (first_outage w.outages) (found_row (f w.db) (next_statement w)) (next_statement w)

abbrev pub changed : Option Db → World → Result (Unit {0}) × World
changed (some d) w = (ok tt, record w { db = d })
changed none w = (err w.refusal, w)

-- `pool.Exec`: the change takes place whole or not at all.
unfoldable pub exec : (Db → Option Db) → Sql (Unit {0})
exec f w =
    answered (first_outage w.outages) (changed (f w.db) (next_statement w)) (next_statement w)

abbrev pub returned : {A : Type 0} → Option (A × Db) → World → Result A × World
returned (some (a, d)) w = (ok a, record w { db = d })
returned none w = (err w.refusal, w)

-- A change with `RETURNING`.
unfoldable pub exec_returning : {A : Type 0} → (Db → Option (A × Db)) → Sql A
exec_returning f w =
    answered (first_outage w.outages) (returned (f w.db) (next_statement w)) (next_statement w)

abbrev pub continue : {A B : Type 0} → Result A → (A → Sql B) → Sql B
continue (ok a) f w = f a w
continue (err e) f w = (err e, w)

infixl 5 ◌>>=◌ ◌>>◌
unfoldable pub ◌>>=◌ : {A B : Type 0} → Sql A → (A → Sql B) → Sql B
◌>>=◌ m f w = let (r, w') = m w in continue r f w'

abbrev pub ◌>>◌ : {A B : Type 0} → Sql A → Sql B → Sql B
m >> n = m >>= λ _. n

abbrev pub restored : {A : Type 0} → Db → Result A × World → Result A × World
restored d (ok a, w) = (ok a, w)
restored d (err e, w) = (err e, record w { db = d })

-- `pool.Begin`, the statements and `tx.Commit`.
abbrev pub committed : String → Sql (Unit {0}) → Sql (Unit {0})
committed text body = wrap text (exec (λ d. some d)) >> body >> exec (λ d. some d)

-- `defer tx.Rollback`: after an error the database is as it was.
unfoldable pub transaction : String → Sql (Unit {0}) → Sql (Unit {0})
transaction text body w = restored w.db (committed text body w)
