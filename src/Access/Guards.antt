-- ===== src/Access/Guards.antt =====
-- `RequireRole` and `RequireTeamLeaderOrAdmin` of middleware.go: nothing changes unless they let pass.
use contribution_tracker.Prelude.{
  String, ◌≡◌, refl, sym, ap, ◌∙◌, Bool, true, false, some, [], ◌∷◌, ◌⊎◌, inl, inr, ◌==◌,
  if◌then◌else◌, arith, contains, Bool-cases,
}
use contribution_tracker.Domain.{Team, role_admin}
use contribution_tracker.Database.Schema.{has_link}
use contribution_tracker.Database.Session.{Result, ok, err, World}
use contribution_tracker.Database.Found.{IsLoaded, find_by_id-ok}
use contribution_tracker.Database.Links.{contains-linked}
use contribution_tracker.Database.Keeps.{Keeps}
use contribution_tracker.Database.Reads.{team-Keeps}
use contribution_tracker.Database.Teams
use contribution_tracker.Auth.{AuthContext, is_admin}
use contribution_tracker.Web.Middleware.{require_role, require_team_leader_or_admin, has_any}
use contribution_tracker.Web.Responses.{Handler, write_json, write_error, or_error, proceed}

-- A handler leaves the database as it is, or something holds.
abbrev pub Either : Handler → World → Type 0 → Type 0
Either h w A = ((h w).1.db ≡ w.db) ⊎ A

abbrev pub reads : (h : Handler) (w : World) (A : Type 0) → Keeps (λ d. d ≡ w.db) h → Either h w A
reads h w A k = inl (k.at w refl)

if_Either :
    (b : Bool) (h g : Handler) (w : World) (A : Type 0)
    → Either h w A
    → (g w).1.db ≡ w.db
    → Either (if b then h else g) w ((b ≡ true) × A)
if_Either true h g w A (inl same) back = inl same
if_Either true h g w A (inr a) back = inr (refl, a)
if_Either false h g w A known back = inl back

-- `RequireRole`
pub role-Either :
    (c : AuthContext) (next : Handler) (w : World) (A : Type 0)
    → Either next w A
    → Either (require_role (role_admin ∷ []) (some c) next) w ((is_admin c ≡ true) × A)
unfolding require_role write_json
role-Either c next w A known =
    elim (if_Either (has_any (role_admin ∷ []) c.roles) next _ w A known refl) [
      | inl same ↦ inl same
      | inr (held, a) ↦ inr (ground (arith, held), a)
    ]

-- The end of `RequireTeamLeaderOrAdmin`, for a team that was loaded.
abbrev only_leaders : AuthContext → Handler → Team → Handler
only_leaders c next t =
    if contains c.user_id t.leader_ids
    then next
    else write_error 403 "you are not a leader of this team"

abbrev named : String → AuthContext → Handler → Handler
named team c next =
    if team == ""
    then write_error 400 "team ID required"
    else or_error (Teams.find_by_id team) 404 "team not found" (only_leaders c next)

leader-Either :
    (team : String) (c : AuthContext) (next : Handler) (w w' : World) (r : Result Team)
    → w'.db ≡ w.db
    → ((t : Team) → r ≡ ok t → IsLoaded t team w.db)
    → ((proceed r 404 "team not found" (only_leaders c next) w').1.db ≡ w.db)
      ⊎ (has_link team c.user_id w.db.team_leaders ≡ true)
unfolding write_json
leader-Either team c next w w' (err _) back known = inl back
leader-Either team c next w w' (ok t) back known =
    elim (Bool-cases (contains c.user_id t.leader_ids)) [
      | inl leads ↦ inr (
          sym (contains-linked team c.user_id w.db.team_leaders)
          ∙ ap (contains c.user_id) (sym (known t refl).leaders)
          ∙ leads)
      | inr other ↦ inl (
          ap
            (λ b.
              ((if b then next else write_error 403 "you are not a leader of this team") w').1.db)
            other
          ∙ back)
    ]

-- `RequireTeamLeaderOrAdmin`
pub team-Either :
    (team : String) (c : AuthContext) (next : Handler) (w : World)
    → Either
        (require_team_leader_or_admin team (some c) next)
        w
        ((is_admin c ≡ true) ⊎ (has_link team c.user_id w.db.team_leaders ≡ true))
unfolding require_team_leader_or_admin or_error write_json
team-Either team c next w = by_role (is_admin c)
  where
    loaded :
        Either
          (or_error (Teams.find_by_id team) 404 "team not found" (only_leaders c next))
          w
          (has_link team c.user_id w.db.team_leaders ≡ true)
    loaded =
        leader-Either team c next w (Teams.find_by_id team w).1 (Teams.find_by_id team w).0
          ((team-Keeps (λ d. d ≡ w.db) team).at w refl)
          (λ t e.
            (find_by_id-ok team w (Teams.find_by_id team w).1 t
              (ap (λ r. (r, (Teams.find_by_id team w).1)) e)).0)

    by_name :
        (b : Bool)
        → Either
            (if b
              then write_error 400 "team ID required"
              else or_error (Teams.find_by_id team) 404 "team not found" (only_leaders c next))
            w
            (has_link team c.user_id w.db.team_leaders ≡ true)
    by_name true = inl refl
    by_name false = loaded

    widened :
        (h : Handler)
        → Either h w (has_link team c.user_id w.db.team_leaders ≡ true)
        → Either h w ((false ≡ true) ⊎ (has_link team c.user_id w.db.team_leaders ≡ true))
    widened h (inl same) = inl same
    widened h (inr leads) = inr (inr leads)

    by_role :
        (b : Bool)
        → Either
            (if b then next else named team c next)
            w
            ((b ≡ true) ⊎ (has_link team c.user_id w.db.team_leaders ≡ true))
    by_role true = inr (inl refl)
    by_role false = widened (named team c next) (by_name (team == ""))
