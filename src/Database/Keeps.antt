-- ===== src/Database/Keeps.antt =====
-- Invariants of the database under statements and handlers, one rule for each way to build them.
use contribution_tracker.Prelude.{
  String, ◌≡◌, refl, Bool, true, false, Option, some, none, eq_of_some, if◌then◌else◌,
}
use mathlib.Core.Path.{subst}
use contribution_tracker.Database.Schema.{Db}
use contribution_tracker.Database.Success.{bind-ok, wrap-ok, exec-ok}
use contribution_tracker.Database.Session.{
  Result, ok, err, World, Sql, first_outage, next_statement, answered, found_row, changed, returned,
  continue, wrap_result, restored, committed, pure, fail, wrap, query, query_row, exec,
  exec_returning, ◌>>=◌, transaction,
}

-- `m` keeps `P`, whatever it returns and whatever outages it meets.
pub record Keeps {ℓ κ} {X : Type ℓ} (P : Db → Type κ) (m : World → X × World) : Type (ℓ ⊔ κ) where
  pub at : (w : World) → P w.db → P (m w).1.db

-- A change that keeps `P` where it takes place.
abbrev pub Preserves {κ} : (Db → Type κ) → (Db → Option Db) → Type κ
Preserves P f = (d d' : Db) → P d → f d ≡ some d' → P d'

module _ {κ} (P : Db → Type κ) where
  module _ {A : Type 0} where
    pub Keeps-pure : (a : A) → Keeps P (pure a)
    unfolding pure
    Keeps-pure a = record { at = λ w h. h }

    pub Keeps-fail : (text : String) → Keeps P (fail {A = A} text)
    unfolding fail
    Keeps-fail text = record { at = λ w h. h }

    pub Keeps-wrap : (text : String) (m : Sql A) → Keeps P m → Keeps P (wrap text m)
    unfolding wrap
    Keeps-wrap text m k = record { at = λ w h. k.at w h }

    answered-keeps :
        (o : Option String) (r : Result A × World) (w : World)
        → P r.1.db
        → P w.db
        → P (answered o r w).1.db
    answered-keeps none r w hr hw = hr
    answered-keeps (some text) r w hr hw = hw

    found_row-keeps : (o : Option A) (w : World) → P w.db → P (found_row o w).1.db
    found_row-keeps none w h = h
    found_row-keeps (some a) w h = h

    pub Keeps-query : (f : Db → A) → Keeps P (query f)
    unfolding query
    Keeps-query f = record { at = λ w h. answered-keeps (first_outage w.outages) _ _ h h }

    pub Keeps-query_row : (f : Db → Option A) → Keeps P (query_row f)
    unfolding query_row
    Keeps-query_row f = record {
      at = λ w h.
          answered-keeps (first_outage w.outages) _ _
            (found_row-keeps (f w.db) (next_statement w) h) h;
    }

    returned-keeps :
        (o : Option (A × Db)) (w : World)
        → ((a : A) (d : Db) → o ≡ some (a, d) → P d)
        → P w.db
        → P (returned o w).1.db
    returned-keeps none w k h = h
    returned-keeps (some (a, d)) w k h = k a d refl

    pub Keeps-exec_returning :
        (f : Db → Option (A × Db))
        → ((d d' : Db) (a : A) → P d → f d ≡ some (a, d') → P d')
        → Keeps P (exec_returning f)
    unfolding exec_returning
    Keeps-exec_returning f k = record {
      at = λ w h.
          answered-keeps (first_outage w.outages) _ _
            (returned-keeps (f w.db) (next_statement w) (λ a d e. k w.db d a h e) h) h;
    }

  changed-keeps :
      (o : Option Db) (w : World) → ((d : Db) → o ≡ some d → P d) → P w.db → P (changed o w).1.db
  changed-keeps none w k h = h
  changed-keeps (some d) w k h = k d refl

  pub Keeps-exec : (f : Db → Option Db) → Preserves P f → Keeps P (exec f)
  unfolding exec
  Keeps-exec f k = record {
    at = λ w h.
        answered-keeps (first_outage w.outages) _ _
          (changed-keeps (f w.db) (next_statement w) (λ d e. k w.db d h e) h) h;
  }

  pub Keeps-if :
      {X : Type 0} (b : Bool) (m n : World → X × World)
      → Keeps P m
      → Keeps P n
      → Keeps P (if b then m else n)
  Keeps-if true m n km kn = km
  Keeps-if false m n km kn = kn

  continue-keeps :
      {A B : Type 0} (r : Result A) (f : A → Sql B) (w : World)
      → ((a : A) → Keeps P (f a))
      → P w.db
      → P (continue r f w).1.db
  continue-keeps (ok a) f w kf h = (kf a).at w h
  continue-keeps (err e) f w kf h = h

  pub Keeps-bind :
      {A B : Type 0} (m : Sql A) (f : A → Sql B)
      → Keeps P m
      → ((a : A) → Keeps P (f a))
      → Keeps P (m >>= f)
  unfolding ◌>>=◌
  Keeps-bind m f km kf = record { at = λ w h. continue-keeps (m w).0 f (m w).1 kf (km.at w h) }

  restored-keeps :
      {A : Type 0} (d : Db) (p : Result A × World)
      → P d
      → ((a : A) → p ≡ (ok a, p.1) → P p.1.db)
      → P (restored d p).1.db
  restored-keeps d (ok a, w) hd hw = hw a refl
  restored-keeps d (err e, w) hd hw = hd

  same-ok : (w w' : World) → P w.db → exec (λ d. some d) w ≡ (ok tt, w') → P w'.db
  same-ok w w' h e = subst P (eq_of_some (exec-ok _ w w' e)) h

  committed-ok :
      (text : String) (body : Sql (Unit {0}))
      → ((w w' : World) → P w.db → body w ≡ (ok tt, w') → P w'.db)
      → (w w' : World) → P w.db
      → committed text body w ≡ (ok tt, w')
      → P w'.db
  committed-ok text body k w w' h e =
      let (_, w2, first, last) = bind-ok _ _ w w' e in
      let (_, w1, begun, ran) = bind-ok _ _ w w2 first in
      same-ok w2 w' (k w1 w2 (same-ok w w1 h (wrap-ok text _ w w1 begun)) ran) last

  -- A transaction keeps what holds again whenever its statements succeed, one after the other.
  pub Keeps-transaction :
      (text : String) (body : Sql (Unit {0}))
      → ((w w' : World) → P w.db → body w ≡ (ok tt, w') → P w'.db)
      → Keeps P (transaction text body)
  unfolding transaction
  Keeps-transaction text body k = record {
    at = λ w h.
        restored-keeps w.db (committed text body w) h (λ a e. committed-ok text body k w _ h e);
  }

  -- The same at one state, where the rest may use what a query has read.
  pub exec_at :
      (f : Db → Option Db) (w : World)
      → P w.db
      → ((d : Db) → f w.db ≡ some d → P d)
      → P (exec f w).1.db
  unfolding exec
  exec_at f w h k =
      answered-keeps (first_outage w.outages) _ _ (changed-keeps (f w.db) (next_statement w) k h) h

  read-keeps :
      {A B : Type 0} (o : Option String) (text : String) (a : A) (g : A → Sql B) (w : World)
      → P w.db
      → P (g a w).1.db
      → P (continue (wrap_result text (answered o (ok a, w) w).0) g (answered o (ok a, w) w).1).1.db
  read-keeps none text a g w h k = k
  read-keeps (some e) text a g w h k = h

  pub Keeps-bind_query :
      {A B : Type 0} (text : String) (f : Db → A) (g : A → Sql B)
      → ((w : World) → P w.db → P (g (f w.db) w).1.db)
      → Keeps P (wrap text (query f) >>= g)
  unfolding ◌>>=◌ wrap query
  Keeps-bind_query text f g k = record {
    at = λ w h.
        read-keeps (first_outage w.outages) text (f w.db) g (next_statement w) h
          (k (next_statement w) h);
  }

pub ruleset keeps_rules =
    (Keeps-pure, Keeps-fail, Keeps-wrap, Keeps-query, Keeps-query_row, Keeps-if, Keeps-bind)
