-- ===== src/Leadership/Requests.antt =====
-- What sequences of requests, as router.go serves them, do to leaders and members.
use contribution_tracker.Database.Schema.{Db}
use contribution_tracker.Database.Session.{World}
use contribution_tracker.Database.Keeps.{Keeps}
use contribution_tracker.Web.Router.{Env, Request, serve}
use contribution_tracker.Web.Closed.Serve.{Brings, serve-Keeps}
use contribution_tracker.Web.Closed.Removal.{delete_user-Keeps, delete_statement-Keeps}
use contribution_tracker.Leadership.Invariant.{LeadersAreMembers, delete_user-Preserves}
use contribution_tracker.Leadership.Restoring.{IsCoherent, restore-Keeps_leaders}
use contribution_tracker.Leadership.Closed.{leadership_closed, delete_accounts-Preserves}

-- One request, in whatever environment, with whatever failures of the database in `w`; and several,
-- one after the other. A file that is restored has each team's leaders among its members.
pub data Served : Db → Db → Type 0 where
  none_served : (d : Db) → Served d d
  one_more :
      (env : Env) (r : Request) (w : World) (d : Db)
      → Brings IsCoherent r.call
      → Served d w.db
      → Served d (serve env r w).1.db

serve-Keeps_leaders :
    (env : Env) (r : Request) → Brings IsCoherent r.call → Keeps LeadersAreMembers (serve env r)
serve-Keeps_leaders env r coherent =
    serve-Keeps LeadersAreMembers leadership_closed
      (delete_user-Keeps LeadersAreMembers delete_accounts-Preserves delete_user-Preserves)
      (delete_statement-Keeps LeadersAreMembers delete_accounts-Preserves delete_user-Preserves)
      IsCoherent (λ env f. restore-Keeps_leaders env.base64 env.visit f) env r coherent

-- Where every leader of a team is a member of it, this is so after any sequence of requests, each in
-- any environment and with any failures of the database's statements, and the files that are restored
-- among them with each team's leaders among its members.
pub Served-LeadersAreMembers :
    (d d' : Db) → Served d d' → LeadersAreMembers d → LeadersAreMembers d'
Served-LeadersAreMembers _ _ (none_served d) h = h
Served-LeadersAreMembers _ _ (one_more env r w d coherent before) h =
    (serve-Keeps_leaders env r coherent).at w (Served-LeadersAreMembers d w.db before h)
