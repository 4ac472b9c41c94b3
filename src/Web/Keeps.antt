-- ===== src/Web/Keeps.antt =====
-- The rules of Database/Keeps for what handlers are built from.
use contribution_tracker.Prelude.{ℕ, String, Option, some, none, ◌≡◌, refl, ap}
use contribution_tracker.Database.Schema.{Db}
use contribution_tracker.Database.Session.{Result, ok, err, World, Sql}
use contribution_tracker.Database.Keeps.{Keeps, Keeps-if}
use contribution_tracker.Web.Responses.{Handler, Body, write_json, proceed, or_error, decoded}

module _ {κ} (P : Db → Type κ) where
  pub Keeps-write_json : (status : ℕ) (body : Body) → Keeps P (write_json status body)
  unfolding write_json
  Keeps-write_json status body = record { at = λ w h. h }

  proceed-keeps :
      {A : Type 0} (r : Result A) (status : ℕ) (text : String) (next : A → Handler)
      → ((a : A) → Keeps P (next a))
      → (w : World) → P w.db
      → P (proceed r status text next w).1.db
  proceed-keeps (ok a) status text next k w h = (k a).at w h
  proceed-keeps (err e) status text next k w h = (Keeps-write_json status _).at w h

  pub Keeps-or_error :
      {A : Type 0} (m : Sql A) (status : ℕ) (text : String) (next : A → Handler)
      → Keeps P m
      → ((a : A) → Keeps P (next a))
      → Keeps P (or_error m status text next)
  unfolding or_error
  Keeps-or_error m status text next km k = record {
    at = λ w h. proceed-keeps (m w).0 status text next k (m w).1 (km.at w h);
  }

  -- The same at one state, where the rest may use what was read.
  proceed-at :
      {A : Type 0} (r : Result A) (status : ℕ) (text : String) (next : A → Handler) (w : World)
      → P w.db
      → ((a : A) → r ≡ ok a → P (next a w).1.db)
      → P (proceed r status text next w).1.db
  proceed-at (ok a) status text next w h k = k a refl
  proceed-at (err e) status text next w h k = (Keeps-write_json status _).at w h

  pub or_error_at :
      {A : Type 0} (m : Sql A) (status : ℕ) (text : String) (next : A → Handler) (w : World)
      → P (m w).1.db
      → ((a : A) (w' : World) → m w ≡ (ok a, w') → P w'.db → P (next a w').1.db)
      → P (or_error m status text next w).1.db
  unfolding or_error
  or_error_at m status text next w h k =
      proceed-at (m w).0 status text next (m w).1 h
        (λ a e. k a (m w).1 (ap (λ r. (r, (m w).1)) e) h)

  pub Keeps-decoded :
      {A : Type 0} (body : Option A) (next : A → Handler)
      → ((a : A) → Keeps P (next a))
      → Keeps P (decoded body next)
  unfolding decoded
  Keeps-decoded none next k = Keeps-write_json _ _
  Keeps-decoded (some a) next k = k a

pub ruleset handler_rules = (Keeps-write_json, Keeps-or_error, Keeps-decoded, Keeps-if)
