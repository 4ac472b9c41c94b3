-- ===== src/Report/Delivery.antt =====
-- Which events `GenerateReport` of report_service.go sends, and in which order.
use contribution_tracker.Prelude.{
  String, ◌≡◌, refl, sym, ap, ◌∙◌, some, List, [], ◌∷◌, ◌⊎◌, inl, inr, ◌==◌, contains, keep, find,
  map, Bool, true, false, if◌then◌else◌,
}
use mathlib.Core.Path.{subst}
use contribution_tracker.Domain.{Team, User, Repository}
use contribution_tracker.Database.Schema.{Db, UserRow, TeamRow}
use contribution_tracker.Database.Session.{Result, ok, err, World}
use contribution_tracker.Database.Calm.{
  calm, loaded_user, loaded_team, find_users-calm, find_repositories-calm, find_team-calm,
}
use contribution_tracker.Report.{
  Order, ReportQuery, ReportEvent, user_report, complete, failed, member_ids_for, report_members,
  with_repos, with_members, with_team, generate_report, fetch_member_report, groups_for, UserReport,
  wait_returns,
}
use contribution_tracker.Report.Unended.{Unended, wait-Unended}
use contribution_tracker.Report.Fetching.{Registry}
use contribution_tracker.Report.Groups.{FetcherGroup}

-- A report for each of the users, in order, and then the completion.
abbrev pub Delivers : List String → List ReportEvent → Type 0
Delivers [] events = events ≡ complete ∷ []
Delivers (u ∷ us) [] = ⊥
Delivers (u ∷ us) (user_report r ∷ events) = (r.user.id ≡ u) × Delivers us events
Delivers (u ∷ us) (complete ∷ events) = ⊥
Delivers (u ∷ us) (failed _ ∷ events) = ⊥

-- Reports for the first of the users, in order, and nothing after them; not for all of the users.
abbrev pub Stops : List String → List ReportEvent → Type 0
Stops [] events = ⊥
Stops (u ∷ us) [] = Unit
Stops (u ∷ us) (user_report r ∷ events) = (r.user.id ≡ u) × Stops us events
Stops (u ∷ us) (complete ∷ events) = ⊥
Stops (u ∷ us) (failed _ ∷ events) = ⊥

-- The reports of all the users, or of the first of them where a call of a fetcher does not end.
abbrev IsSent : Registry → ReportQuery → List String → List ReportEvent → Type 0
IsSent registry q ids events = Delivers ids events ⊎ (Unended registry q × Stops ids events)

report_members-IsSent :
    (order : Order) (registry : Registry) (gs : List FetcherGroup) (q : ReportQuery)
    (us : List User) (w : World)
    → IsSent registry q (map (λ u. u.id) us) (report_members order registry gs q us w).0
unfolding report_members fetch_member_report
report_members-IsSent order registry gs q [] w = inl refl
report_members-IsSent order registry gs q (u ∷ us) w =
    waited (wait_returns registry u q gs) refl _ _ _ _ refl
      (report_members-IsSent order registry gs q us _)
  where
    waited :
        (b : Bool)
        → wait_returns registry u q gs ≡ b
        → (r : UserReport) (events : List ReportEvent) (w3 w2 : World) → r.user.id ≡ u.id
        → IsSent registry q (map (λ u. u.id) us) events
        → IsSent registry q
            (u.id ∷ map (λ u. u.id) us)
            (if◌then◌else◌ {A = List ReportEvent × World} b (user_report r ∷ events, w3) ([], w2)).0
    waited true e r events w3 w2 same (inl sent) = inl (same, sent)
    waited true e r events w3 w2 same (inr (why, sent)) = inr (why, (same, sent))
    waited false e r events w3 w2 same sent = inr (wait-Unended registry u q gs e, tt)

-- An error alone, the reports of some users and the completion, or reports and nothing after them.
abbrev IsStream : Registry → ReportQuery → List ReportEvent → Type 0
IsStream registry q events =
    ((text : String) × (events ≡ failed text ∷ []))
    ⊎ (((ids : List String) × Delivers ids events)
        ⊎ (Unended registry q × (ids : List String) × Stops ids events))

sent-IsStream :
    (registry : Registry) (q : ReportQuery) (ids : List String) (events : List ReportEvent)
    → IsSent registry q ids events
    → IsStream registry q events
sent-IsStream registry q ids events (inl sent) = inr (inl (ids, sent))
sent-IsStream registry q ids events (inr (why, sent)) = inr (inr (why, ids, sent))

with_repos-IsStream :
    (order : Order) (registry : Registry) (q : ReportQuery) (us : List User)
    (r : Result (List Repository)) (w : World)
    → IsStream registry q (with_repos order registry q us r w).0
with_repos-IsStream order registry q us (err e) w = inl (_, refl)
with_repos-IsStream order registry q us (ok rs) w =
    sent-IsStream registry q _ _ (report_members-IsSent order registry _ q us w)

with_members-IsStream :
    (order : Order) (registry : Registry) (q : ReportQuery) (t : Team) (r : Result (List User))
    (w : World)
    → IsStream registry q (with_members order registry q t r w).0
with_members-IsStream order registry q t (err e) w = inl (_, refl)
with_members-IsStream order registry q t (ok us) w = with_repos-IsStream order registry q us _ _

with_team-IsStream :
    (order : Order) (registry : Registry) (q : ReportQuery) (r : Result Team) (w : World)
    → IsStream registry q (with_team order registry q r w).0
with_team-IsStream order registry q (err e) w = inl (_, refl)
with_team-IsStream order registry q (ok t) w = with_members-IsStream order registry q t _ _

-- Whatever statements and fetches fail, the stream is one error and nothing else, or it is reports
-- followed by one completion, or reports and nothing after them; the last only where the registry
-- builds a fetcher of which a call for the query crashes or does not end.
pub generate_report-IsStream :
    (order : Order) (registry : Registry) (q : ReportQuery) (w : World)
    → ((text : String) × ((generate_report order registry q w).0 ≡ failed text ∷ []))
      ⊎ (((ids : List String) × Delivers ids (generate_report order registry q w).0)
          ⊎ (Unended registry q
              × (ids : List String) × Stops ids (generate_report order registry q w).0))
unfolding generate_report
generate_report-IsStream order registry q w = with_team-IsStream order registry q _ _

ids-loaded :
    (d : Db) (rows : List UserRow)
    → map (λ (u : User). u.id) (map (loaded_user d) rows) ≡ map (λ r. r.id) rows
ids-loaded d [] = refl
ids-loaded d (r ∷ rs) = ap (λ ids. r.id ∷ ids) (ids-loaded d rs)

-- Where the team exists, no statement fails, and each call for the query of a fetcher that the registry
-- builds ends, with a value or an error, there is one report for each row of the users' table
-- whose identifier is among those that the caller's rights give, in the table's order, and then the
-- completion; an identifier without a user gets no report.
pub generate_report-Delivers :
    (order : Order) (registry : Registry) (q : ReportQuery) (d : Db) (refusal no_rows : String)
    (row : TeamRow)
    → find (λ t. t.id == q.team_id) d.teams ≡ some row
    → ¬ (Unended registry q)
    → Delivers
        (map (λ u. u.id) (keep (λ u. contains u.id (member_ids_for q (loaded_team d row))) d.users))
        (generate_report order registry q (calm d refusal no_rows)).0
unfolding generate_report
generate_report-Delivers order registry q d refusal no_rows row e ended =
    let w : World = calm d refusal no_rows in
    let ids : List String = member_ids_for q (loaded_team d row) in
    let rows : List UserRow = keep (λ u. contains u.id ids) d.users in
    let us : List User = map (loaded_user d) rows in
    let t : Team = loaded_team d row in
    let team =
      ap (λ p. (with_team order registry q p.0 p.1).0)
        (find_team-calm d refusal no_rows q.team_id row e) in
    let users =
      ap (λ p. (with_members order registry q t p.0 p.1).0)
        (find_users-calm d refusal no_rows ids) in
    let repos =
      ap (λ p. (with_repos order registry q us p.0 p.1).0)
        (find_repositories-calm d refusal no_rows t.repository_ids) in
    let gs : List FetcherGroup =
      groups_for order (keep (λ r. contains r.id t.repository_ids) d.repositories) in
    subst (Delivers (map (λ u. u.id) rows)) (sym (team ∙ users ∙ repos)) (
      subst (λ ids. Delivers ids (report_members order registry gs q us w).0) (ids-loaded d rows)
        (delivered _ _ (report_members-IsSent order registry gs q us w)))
  where
    delivered :
        (ids : List String) (events : List ReportEvent)
        → IsSent registry q ids events
        → Delivers ids events
    delivered ids events (inl sent) = sent
    delivered ids events (inr (why, _)) = absurd (ended why)
