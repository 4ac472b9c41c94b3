-- ===== src/Database/Success.antt =====
-- What is known of the statements that have succeeded.
use contribution_tracker.Prelude.{String, ◌≡◌, refl, Option, some, arith, ap}
use contribution_tracker.Database.Schema.{Db}
use contribution_tracker.Database.Session.{
  Result, ok, err, World, Sql, continue, pure, wrap, query, query_row, exec, ◌>>=◌,
}

module _ {A : Type 0} where
  pub pure-ok : (a b : A) (w w' : World) → pure a w ≡ (ok b, w') → (a ≡ b) × (w ≡ w')
  unfolding pure
  pure-ok a b w w' e = (cc, cc)

  pub wrap-ok :
      (text : String) (m : Sql A) (w w' : World) {a : A}
      → wrap text m w ≡ (ok a, w')
      → m w ≡ (ok a, w')
  unfolding wrap
  wrap-ok text m w w' e = ground arith

  pub query-ok :
      (f : Db → A) (w w' : World) {a : A} → query f w ≡ (ok a, w') → (f w.db ≡ a) × (w'.db ≡ w.db)
  unfolding query
  query-ok f w w' e = ground arith

  pub query_row-ok :
      (f : Db → Option A) (w w' : World) {a : A}
      → query_row f w ≡ (ok a, w')
      → (f w.db ≡ some a) × (w'.db ≡ w.db)
  unfolding query_row
  query_row-ok f w w' e = ground arith

pub exec-ok : (f : Db → Option Db) (w w' : World) → exec f w ≡ (ok tt, w') → f w.db ≡ some w'.db
unfolding exec
exec-ok f w w' e = ground arith

continue-ok :
    {A B : Type 0} (r : Result A) (f : A → Sql B) (w w' : World) {b : B}
    → continue r f w ≡ (ok b, w')
    → (a : A) × (r ≡ ok a) × (f a w ≡ (ok b, w'))
continue-ok (ok a) f w w' e = (a, refl, e)
continue-ok (err _) f w w' e = cc

pub bind-ok :
    {A B : Type 0} (m : Sql A) (f : A → Sql B) (w w' : World) {b : B}
    → (m >>= f) w ≡ (ok b, w')
    → (a : A) × (w1 : World) × (m w ≡ (ok a, w1)) × (f a w1 ≡ (ok b, w'))
unfolding ◌>>=◌
bind-ok m f w w' e =
    let (a, same, rest) = continue-ok (m w).0 f (m w).1 w' e in
    (a, (m w).1, ap (λ r. (r, (m w).1)) same, rest)
