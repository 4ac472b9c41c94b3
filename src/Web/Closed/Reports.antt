-- ===== src/Web/Closed/Reports.antt =====
-- A report changes the database by upserts alone, and a login or the check of a token not at all.
use contribution_tracker.Prelude.{
  String, ℕ, Bool, true, false, Option, some, none, List, [], ◌∷◌, ◌==◌, if◌then◌else◌,
}
use contribution_tracker.Domain.{Team, Repository, User, UserAccount}
use contribution_tracker.Database.Schema.{Db}
use contribution_tracker.Database.Session.{Result, ok, err, World}
use contribution_tracker.Database.Keeps.{Keeps}
use contribution_tracker.Database.Reads.{
  team-Keeps, users_by_ids-Keeps, repositories_by_ids-Keeps, account-Keeps, user_of_account-Keeps,
  account_by_username-Keeps,
}
use contribution_tracker.Database.Repositories
use contribution_tracker.Auth as Auth
use contribution_tracker.Auth.Library.{Jwt, Secret, Token, Claims}
use contribution_tracker.Report
use contribution_tracker.Report.{Order, ReportQuery}
use contribution_tracker.Report.Outcomes.{Outcome, value, error, crashed, unfinished}
use contribution_tracker.Report.Fetching.{ActivityFetcher, Registry, build}
use contribution_tracker.Report.Groups.{FetcherGroup}

module _ {κ} (P : Db → Type κ) where
  with_account-keeps :
      (jwt : Jwt) (secret : Secret) (compare : String → String → Bool) (now : ℕ) (password : String)
      (r : Result UserAccount) (w : World)
      → P w.db
      → P (Auth.with_account jwt secret compare now password r w).1.db
  with_account-keeps jwt secret compare now password (err _) w h = h
  with_account-keeps jwt secret compare now password (ok a) w h =
      tested (compare a.password_hash password) (jwt.sign secret (Auth.claims_of a now))
    where
      tested :
          (b : Bool) (text : Option String)
          → P
              (if b
                then Auth.signed jwt secret a now text w
                else (err "invalid credentials", w)).1.db
      tested true none = h
      tested true (some _) = h
      tested false _ = h

  pub login-Keeps :
      (jwt : Jwt) (secret : Secret) (compare : String → String → Bool) (now : ℕ)
      (username password : String)
      → Keeps P (Auth.login jwt secret compare now username password)
  unfolding Auth.login
  login-Keeps jwt secret compare now username password = record {
    at = λ w h.
        with_account-keeps jwt secret compare now password _ _
          ((account_by_username-Keeps P username).at w h);
  }

  with_user-keeps :
      (claims : Claims) (a : UserAccount) (r : Result User) (w : World)
      → P w.db
      → P (Auth.with_user claims a r w).1.db
  with_user-keeps claims a (ok _) w h = h
  with_user-keeps claims a (err _) w h = h

  with_owner-keeps :
      (claims : Claims) (r : Result UserAccount) (w : World)
      → P w.db
      → P (Auth.with_owner claims r w).1.db
  with_owner-keeps claims (err _) w h = h
  with_owner-keeps claims (ok a) w h =
      with_user-keeps claims a _ _ ((user_of_account-Keeps P claims.subject).at w h)

  context-keeps : (claims : Claims) (w : World) → P w.db → P (Auth.context claims w).1.db
  unfolding Auth.context
  context-keeps claims w h = with_owner-keeps claims _ _ ((account-Keeps P claims.subject).at w h)

  with_claims-keeps : (o : Option Claims) (w : World) → P w.db → P (Auth.with_claims o w).1.db
  with_claims-keeps none w h = h
  with_claims-keeps (some claims) w h = tested (claims.subject == "")
    where
      tested : (b : Bool) → P (if b then (err "missing subject", w) else Auth.context claims w).1.db
      tested true = h
      tested false = context-keeps claims w h

  with_token-keeps : (o : Option Token) (w : World) → P w.db → P (Auth.with_token o w).1.db
  with_token-keeps none w h = h
  with_token-keeps (some t) w h = tested t.valid
    where
      tested :
          (b : Bool) → P (if b then Auth.with_claims t.claims w else (err "invalid token", w)).1.db
      tested true = with_claims-keeps t.claims w h
      tested false = h

  pub validate-Keeps :
      (jwt : Jwt) (secret : Secret) (now : ℕ) (text : String)
      → Keeps P (Auth.validate jwt secret now text)
  unfolding Auth.validate
  validate-Keeps jwt secret now text = record {
    at = λ w h. with_token-keeps (jwt.parse now (Auth.key_for secret) text) w h;
  }

module _ {κ} (P : Db → Type κ) (upsert : (r : Repository) → Keeps P (Repositories.upsert r)) where
  upsert_all-keeps : (rs : List Repository) (w : World) → P w.db → P (Report.upsert_all rs w).db
  unfolding Report.upsert_all
  upsert_all-keeps [] w h = h
  upsert_all-keeps (r ∷ rs) w h = upsert_all-keeps rs _ ((upsert r).at w h)

  either-keeps :
      {A : Type 0} (b : Bool) (r s : A × World) → P r.1.db → P s.1.db → P (if b then r else s).1.db
  either-keeps true r s h k = h
  either-keeps false r s h k = k

  upsert_found-keeps :
      (o : Outcome (List Repository)) (w : World) → P w.db → P (Report.upsert_found o w).db
  upsert_found-keeps (value found) w h = upsert_all-keeps found w h
  upsert_found-keeps (error _) w h = h
  upsert_found-keeps crashed w h = h
  upsert_found-keeps unfinished w h = h

  started-keeps :
      (o : Option ActivityFetcher) (u : User) (g : FetcherGroup) (q : ReportQuery) (w : World)
      → P w.db
      → P (Report.started o u g q w).1.db
  started-keeps none u g q w h = h
  started-keeps (some f) u g q w h = upsert_found-keeps (Report.discovery f _) w h

  start_groups-keeps :
      (registry : Registry) (u : User) (q : ReportQuery) (gs : List FetcherGroup) (w : World)
      → P w.db
      → P (Report.start_groups registry u q gs w).1.db
  unfolding Report.start_groups
  start_groups-keeps registry u q [] w h = h
  start_groups-keeps registry u q (g ∷ gs) w h =
      let fetcher : Option ActivityFetcher = build registry g.platform g.token in
      let first = started-keeps fetcher u g q w h in
      either-keeps (Report.reaches_next fetcher u g) _ _
        (start_groups-keeps registry u q gs _ first) first

  report_members-keeps :
      (order : Order) (registry : Registry) (gs : List FetcherGroup) (q : ReportQuery)
      (us : List User) (w : World)
      → P w.db
      → P (Report.report_members order registry gs q us w).1.db
  unfolding Report.report_members Report.fetch_member_report
  report_members-keeps order registry gs q [] w h = h
  report_members-keeps order registry gs q (u ∷ us) w h =
      let first = start_groups-keeps registry u q gs w h in
      either-keeps (Report.wait_returns registry u q gs) _ _
        (report_members-keeps order registry gs q us _ first) first

  with_repos-keeps :
      (order : Order) (registry : Registry) (q : ReportQuery) (us : List User)
      (r : Result (List Repository)) (w : World)
      → P w.db
      → P (Report.with_repos order registry q us r w).1.db
  with_repos-keeps order registry q us (err e) w h = h
  with_repos-keeps order registry q us (ok rs) w h =
      report_members-keeps order registry (Report.groups_for order rs) q us w h

  with_members-keeps :
      (order : Order) (registry : Registry) (q : ReportQuery) (t : Team) (r : Result (List User))
      (w : World)
      → P w.db
      → P (Report.with_members order registry q t r w).1.db
  with_members-keeps order registry q t (err e) w h = h
  with_members-keeps order registry q t (ok us) w h =
      with_repos-keeps order registry q us _ _
        ((repositories_by_ids-Keeps P t.repository_ids).at w h)

  with_team-keeps :
      (order : Order) (registry : Registry) (q : ReportQuery) (r : Result Team) (w : World)
      → P w.db
      → P (Report.with_team order registry q r w).1.db
  with_team-keeps order registry q (err e) w h = h
  with_team-keeps order registry q (ok t) w h =
      with_members-keeps order registry q t _ _
        ((users_by_ids-Keeps P (Report.member_ids_for q t)).at w h)

  pub generate_report-Keeps :
      (order : Order) (registry : Registry) (q : ReportQuery)
      → Keeps P (Report.generate_report order registry q)
  unfolding Report.generate_report
  generate_report-Keeps order registry q = record {
    at = λ w h. with_team-keeps order registry q _ _ ((team-Keeps P q.team_id).at w h);
  }
