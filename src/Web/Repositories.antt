-- ===== src/Web/Repositories.antt =====
-- src/internal/presentation/team_handler.go: `TeamHandler`.
use contribution_tracker.Prelude.{
  String, Bool, true, false, Option, none, some, List, [], ◌∷◌, ◌==◌, ◌&&◌, ◌||◌, not,
  if◌then◌else◌, find, map,
}
use Prim.Native.Char.{Char, code}
use Prim.Native.Nat.{compare, Ordering}
use Prim.Native.String
use contribution_tracker.Domain.{Team, User, Repository}
use contribution_tracker.Database.Session.{Result, ok, err, World, Sql}
use contribution_tracker.Database.Teams
use contribution_tracker.Database.Users
use contribution_tracker.Database.Repositories
use contribution_tracker.Auth.{AuthContext, is_admin}
use contribution_tracker.Web.Responses.{
  Handler, Response, write_json, write_error, or_error, decoded, status_text, added_repo, team_list,
  AddRepoRequest, MemberDto, RepoDto, TeamDto,
}

abbrev pub repo_to_dto : Repository → RepoDto
repo_to_dto r = record { id = r.id; full_name = r.full_name; platform = r.platform.name }

abbrev pub member_to_dto : User → MemberDto
member_to_dto u = record { id = u.id; username = u.username; display_name = u.display_name }

-- The lists of a team are read only where there are identifiers; an error leaves the list empty.
abbrev pub or_empty : {A B : Type 0} → (A → B) → Result (List A) → List B
or_empty f (ok found) = map f found
or_empty f (err _) = []

abbrev pub load_dtos :
    {A B : Type 0} → (List String → Sql (List A)) → (A → B) → List String → World → List B × World
load_dtos load f [] w = ([], w)
load_dtos load f (id ∷ ids) w = let (found, w') = load (id ∷ ids) w in (or_empty f found, w')

unfoldable pub team_to_dto : Team → World → TeamDto × World
team_to_dto t w =
    let (repos, w2) = load_dtos Repositories.find_by_ids repo_to_dto t.repository_ids w in
    let (leaders, w3) = load_dtos Users.find_by_ids member_to_dto t.leader_ids w2 in
    let (members, w4) = load_dtos Users.find_by_ids member_to_dto t.member_ids w3 in
    (
      record {
        id = t.id;
        name = t.name;
        leader_ids = t.leader_ids;
        leaders = leaders;
        member_ids = t.member_ids;
        members = members;
        repository_ids = t.repository_ids;
        repositories = repos;
      },
      w4,
    )

unfoldable pub teams_to_dtos : List Team → World → List TeamDto × World
teams_to_dtos [] w = ([], w)
teams_to_dtos (t ∷ ts) w =
    let (dto, w2) = team_to_dto t w in let (dtos, w3) = teams_to_dtos ts w2 in (dto ∷ dtos, w3)

unfoldable pub write_teams : List Team → Handler
write_teams teams w = let (dtos, w') = teams_to_dtos teams w in write_json 200 (team_list dtos) w'

-- An administrator sees every team, another caller those that the caller is a member of.
unfoldable pub list_teams : Option AuthContext → Handler
list_teams none = write_error 401 "not authenticated"
list_teams (some c) =
    or_error (if is_admin c then Teams.find_all else Teams.find_by_member_id c.user_id) 500
      "failed to load teams" write_teams

-- The first token among the repositories of the platform.
abbrev pub reusable : String → Repository → Bool
reusable platform r = (r.platform.name == platform) && not (r.api_token == "")

abbrev pub token_of : Option Repository → String
token_of none = ""
token_of (some r) = r.api_token

abbrev pub token_among : String → Result (List Repository) → String
token_among platform (ok existing) = token_of (find (reusable platform) existing)
token_among platform (err _) = ""

abbrev pub search_token : String → List String → World → String × World
search_token platform [] w = ("", w)
search_token platform (id ∷ ids) w =
    let (existing, w') = Repositories.find_by_ids (id ∷ ids) w in
    (token_among platform existing, w')

abbrev pub token_found : String → Result Team → World → String × World
token_found platform (ok t) w = search_token platform t.repository_ids w
token_found platform (err _) w = ("", w)

unfoldable pub existing_token : String → String → World → String × World
existing_token team platform w =
    let (found, w') = Teams.find_by_id team w in token_found platform found w'

-- The token of the request, or else the one that the team's repositories have.
unfoldable pub choose_token : String → String → String → World → String × World
choose_token team platform given w =
    if given == "" then existing_token team platform w else (given, w)

abbrev is_slash : Char → Bool
is_slash c = elim (compare (code c) b'/') [ Ordering.eq ↦ true | _ ↦ false ]

-- The last part of `strings.Split(fullName, "/")`: what follows the last slash, or the whole name.
abbrev pub after_last_slash : String → String → String
after_last_slash part String.[] = part
after_last_slash part (String.◌∷◌ c s) = after_last_slash (if is_slash c then s else part) s

abbrev pub repo_name : String → String
repo_name full_name = after_last_slash full_name full_name

abbrev pub new_repository : String → String → String → AddRepoRequest → Repository
new_repository uuid platform token req = record {
  id = String.◌++◌ "r-" uuid;
  name = repo_name req.full_name;
  full_name = req.full_name;
  url = "";
  platform = record { name = platform };
  api_token = token;
}

unfoldable pub save_repository : String → Repository → Handler
save_repository team r = or_error (Repositories.upsert r) 500 "failed to save repository" λ saved.
    or_error (Teams.add_repository team saved.id) 500 "failed to add repository to team"
      λ _. write_json 200 (added_repo saved.id)

unfoldable pub with_token :
    String → String → String → AddRepoRequest → String × World → Response × World
with_token team uuid platform req (token, w) =
    if token == ""
    then write_error 400 "apiToken is required (no existing token found for this platform)" w
    else save_repository team (new_repository uuid platform token req) w

-- The token is chosen first, and the repository is saved with it.
unfoldable pub choose_and_save : String → String → String → AddRepoRequest → Handler
choose_and_save team uuid platform req w =
    with_token team uuid platform req (choose_token team platform req.api_token w)

-- `to_upper` is `strings.ToUpper`, and `uuid` the first eight characters of a drawn identifier.
unfoldable pub add_repository :
    (String → String) → String → String → Option AddRepoRequest → Handler
add_repository to_upper uuid team body =
    if team == ""
    then write_error 400 "team ID required"
    else decoded body λ req.
      if req.full_name == "" || req.platform == ""
      then write_error 400 "fullName and platform are required"
      else choose_and_save team uuid (to_upper req.platform) req

unfoldable pub remove_repository : String → String → Handler
remove_repository team repo =
    if team == "" || repo == ""
    then write_error 400 "team ID and repo ID required"
    else or_error (Teams.remove_repository team repo) 500 "failed to remove repository"
        λ _. write_json 200 (status_text "removed")
