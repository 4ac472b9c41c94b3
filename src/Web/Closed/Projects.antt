-- ===== src/Web/Closed/Projects.antt =====
-- The handlers of teams and repositories, and the report, which upserts what it discovers.
use contribution_tracker.Prelude.{
  String, Bool, true, false, Option, some, none, List, [], ◌∷◌, ◌==◌, if◌then◌else◌,
}
use contribution_tracker.Domain.{Team, Repository}
use contribution_tracker.Database.Schema.{Db}
use contribution_tracker.Database.Session.{Result, ok, err, World, Sql}
use contribution_tracker.Database.Keeps.{
  Keeps, Keeps-wrap, Keeps-exec, Keeps-exec_returning, Keeps-if,
}
use contribution_tracker.Database.Reads.{
  team-Keeps, teams-Keeps, teams_of_member-Keeps, users_by_ids-Keeps, repositories_by_ids-Keeps,
}
use contribution_tracker.Database.Teams
use contribution_tracker.Database.Users
use contribution_tracker.Database.Repositories as Store
use contribution_tracker.Auth.{AuthContext, is_admin}
use contribution_tracker.Web.Repositories
use contribution_tracker.Web.Closed.{IsClosed}
use contribution_tracker.Web.Keeps.{Keeps-write_json, Keeps-or_error, handler_rules}
use contribution_tracker.Web.Responses.{write_json, AddRepoRequest}

module _ {κ} (P : Db → Type κ) where
  load_dtos-keeps :
      {A B : Type 0} (load : List String → Sql (List A)) (f : A → B) (ids : List String) (w : World)
      → ((ids : List String) → Keeps P (load ids))
      → P w.db
      → P (Repositories.load_dtos load f ids w).1.db
  load_dtos-keeps load f [] w k h = h
  load_dtos-keeps load f (id ∷ ids) w k h = (k (id ∷ ids)).at w h

  team_to_dto-Keeps : (t : Team) → Keeps P (Repositories.team_to_dto t)
  unfolding Repositories.team_to_dto
  team_to_dto-Keeps t = record {
    at = λ w h. load_dtos-keeps Users.find_by_ids _ t.member_ids _ (users_by_ids-Keeps P) (
        load_dtos-keeps Users.find_by_ids _ t.leader_ids _ (users_by_ids-Keeps P)
          (load_dtos-keeps Store.find_by_ids _ t.repository_ids w (repositories_by_ids-Keeps P) h));
  }

  teams_to_dtos-Keeps : (ts : List Team) → Keeps P (Repositories.teams_to_dtos ts)
  unfolding Repositories.teams_to_dtos
  teams_to_dtos-Keeps [] = record { at = λ w h. h }
  teams_to_dtos-Keeps (t ∷ ts) = record {
    at = λ w h. (teams_to_dtos-Keeps ts).at _ ((team_to_dto-Keeps t).at w h);
  }

  write_teams-Keeps : (ts : List Team) → Keeps P (Repositories.write_teams ts)
  unfolding Repositories.write_teams write_json
  write_teams-Keeps ts = record { at = λ w h. (teams_to_dtos-Keeps ts).at w h }

  pub list_teams-Keeps : (c : Option AuthContext) → Keeps P (Repositories.list_teams c)
  unfolding Repositories.list_teams
  list_teams-Keeps none = Keeps-write_json P _ _
  list_teams-Keeps (some c) =
      Keeps-or_error P _ _ _ _
        (Keeps-if P (is_admin c) _ _ (teams-Keeps P) (teams_of_member-Keeps P c.user_id))
        write_teams-Keeps

  search_token-keeps :
      (platform : String) (ids : List String) (w : World)
      → P w.db
      → P (Repositories.search_token platform ids w).1.db
  search_token-keeps platform [] w h = h
  search_token-keeps platform (id ∷ ids) w h = (repositories_by_ids-Keeps P (id ∷ ids)).at w h

  token_found-keeps :
      (platform : String) (r : Result Team) (w : World)
      → P w.db
      → P (Repositories.token_found platform r w).1.db
  token_found-keeps platform (ok t) w h = search_token-keeps platform t.repository_ids w h
  token_found-keeps platform (err e) w h = h

  existing_token-keeps :
      (team platform : String) (w : World)
      → P w.db
      → P (Repositories.existing_token team platform w).1.db
  unfolding Repositories.existing_token
  existing_token-keeps team platform w h =
      token_found-keeps platform _ _ ((team-Keeps P team).at w h)

  pub choose_token-keeps :
      (team platform given : String) (w : World)
      → P w.db
      → P (Repositories.choose_token team platform given w).1.db
  unfolding Repositories.choose_token
  choose_token-keeps team platform given w h = chosen (given == "")
    where
      chosen :
          (b : Bool)
          → P (if b then Repositories.existing_token team platform w else (given, w)).1.db
      chosen true = existing_token-keeps team platform w h
      chosen false = h

module _ {κ} (P : Db → Type κ) (closed : IsClosed P) where
  pub upsert-Keeps : (r : Repository) → Keeps P (Store.upsert r)
  unfolding Store.upsert
  upsert-Keeps r =
      Keeps-wrap P _ _
        (Keeps-exec_returning P _ (λ d d' s h e. closed.upsert_repository r s d d' h e))

  add_statement-Keeps : (team repo : String) → Keeps P (Teams.add_repository team repo)
  unfolding Teams.add_repository
  add_statement-Keeps team repo =
      Keeps-wrap P _ _ (Keeps-exec P _ (closed.add_repository team repo))

  save_repository-Keeps :
      (team : String) (r : Repository) → Keeps P (Repositories.save_repository team r)
  unfolding Repositories.save_repository
  save_repository-Keeps team r = search (handler_rules, upsert-Keeps, add_statement-Keeps) depth 9

  with_token-keeps :
      (team uuid platform : String) (req : AddRepoRequest) (token : String) (w : World)
      → P w.db
      → P (Repositories.with_token team uuid platform req (token, w)).1.db
  unfolding Repositories.with_token
  with_token-keeps team uuid platform req token w h = tested (token == "")
    where
      tested :
          (b : Bool)
          → P
              (if b
                then contribution_tracker.Web.Responses.write_error 400
                    "apiToken is required (no existing token found for this platform)" w
                else Repositories.save_repository team
                    (Repositories.new_repository uuid platform token req)
                    w).1.db
      tested true = (Keeps-write_json P _ _).at w h
      tested false = (save_repository-Keeps team _).at w h

  choose_and_save-Keeps :
      (team uuid platform : String) (req : AddRepoRequest)
      → Keeps P (Repositories.choose_and_save team uuid platform req)
  unfolding Repositories.choose_and_save
  choose_and_save-Keeps team uuid platform req = record {
    at = λ w h.
        with_token-keeps team uuid platform req _ _
          (choose_token-keeps P team platform req.api_token w h);
  }

  pub add_repository-Keeps :
      (to_upper : String → String) (uuid team : String) (body : Option AddRepoRequest)
      → Keeps P (Repositories.add_repository to_upper uuid team body)
  unfolding Repositories.add_repository
  add_repository-Keeps to_upper uuid team body =
      search (handler_rules, choose_and_save-Keeps) depth 9

  remove_statement-Keeps : (team repo : String) → Keeps P (Teams.remove_repository team repo)
  unfolding Teams.remove_repository
  remove_statement-Keeps team repo =
      Keeps-wrap P _ _ (Keeps-exec P _ (closed.remove_repository team repo))

  pub remove_repository-Keeps :
      (team repo : String) → Keeps P (Repositories.remove_repository team repo)
  unfolding Repositories.remove_repository
  remove_repository-Keeps team repo = search (handler_rules, remove_statement-Keeps) depth 9
