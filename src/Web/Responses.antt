-- ===== src/Web/Responses.antt =====
-- helpers.go and the DTOs of dto.go: what a handler receives and writes. Decoding a body is done by
-- encoding/json: a handler is given the decoded request, or `none` where decoding failed.
use contribution_tracker.Prelude.{ℕ, String, Option, none, some, List}
use contribution_tracker.Domain.{BackupFile, User}
use contribution_tracker.Database.Session.{Result, ok, err, World, Sql}

pub record LoginRequest : Type 0 where
  pub username : String
  pub password : String

pub record PlatformUsernameRequest : Type 0 where
  pub platform : String
  pub username : String

pub record AddRepoRequest : Type 0 where
  pub full_name : String
  pub platform : String
  pub api_token : String

pub record ConfigSetRequest : Type 0 where
  pub key : String
  pub value : String

pub record CreateUserRequest : Type 0 where
  pub username : String
  pub display_name : String
  pub email : String
  pub password : String
  pub roles : List String

-- `AddMemberRequest` and `AddLeaderRequest`
pub record AddMemberRequest : Type 0 where
  pub user_id : String

pub record CreateTeamRequest : Type 0 where
  pub name : String
  pub leader_id : String

pub record TeamSummaryDto : Type 0 where
  pub id : String
  pub name : String
  pub leader_ids : List String

pub record AdminUserDto : Type 0 where
  pub id : String
  pub username : String
  pub display_name : String
  pub email : String
  pub roles : List String
  pub teams : List TeamSummaryDto

pub record UserDto : Type 0 where
  pub id : String
  pub username : String
  pub display_name : String
  pub avatar_url : String
  pub platform_usernames : List (String × String)

pub record LoginResponse : Type 0 where
  pub token : String
  pub roles : List String
  pub user : UserDto

pub record MemberDto : Type 0 where
  pub id : String
  pub username : String
  pub display_name : String

pub record RepoDto : Type 0 where
  pub id : String
  pub full_name : String
  pub platform : String

pub record TeamDto : Type 0 where
  pub id : String
  pub name : String
  pub leader_ids : List String
  pub leaders : List MemberDto
  pub member_ids : List String
  pub members : List MemberDto
  pub repository_ids : List String
  pub repositories : List RepoDto

pub record ReportRequestDto : Type 0 where
  pub team_id : String
  pub member_id : String
  pub since : String
  pub until : String
  pub types : List String
  pub report_type : String

pub record ActivityDto : Type 0 where
  pub kind : String
  pub display_name : String
  pub title : String
  pub url : String
  pub created_at : String
  pub summary : String

pub record ActivityCountDto : Type 0 where
  pub kind : String
  pub display_name : String
  pub count : ℕ

pub record UserReportDto : Type 0 where
  pub user : UserDto
  pub counts : List ActivityCountDto
  pub activities : List ActivityDto

-- `SSEEventData`, and the event's type that stands before it.
pub record SseEvent : Type 0 where
  pub kind : String
  pub report : Option UserReportDto
  pub error : String

abbrev pub user_to_dto : User → UserDto
user_to_dto u = record {
  id = u.id;
  username = u.username;
  display_name = u.display_name;
  avatar_url = u.avatar_url;
  platform_usernames = u.platform_usernames;
}

pub data Body : Type 0 where
  message : String → Body
  status_text : String → Body
  added_repo : String → Body
  team_list : List TeamDto → Body
  logged_in : LoginResponse → Body
  profile : UserDto → Body
  stream : List SseEvent → Body
  team_summary : TeamSummaryDto → Body
  admin_user : AdminUserDto → Body
  admin_users : List AdminUserDto → Body
  settings : List (String × String) → Body
  backup : BackupFile → Body

pub record Response : Type 0 where
  pub status : ℕ
  pub body : Body

abbrev pub Handler : Type 0
Handler = World → Response × World

unfoldable pub write_json : ℕ → Body → Handler
write_json status body w = (record { status = status; body = body }, w)

abbrev pub write_error : ℕ → String → Handler
write_error status text = write_json status (message text)

abbrev pub proceed : {A : Type 0} → Result A → ℕ → String → (A → Handler) → Handler
proceed (ok a) status text next w = next a w
proceed (err e) status text next w = write_error status text w

-- `if err := …; err != nil { writeError(w, status, text); return }`
unfoldable pub or_error : {A : Type 0} → Sql A → ℕ → String → (A → Handler) → Handler
or_error m status text next w = let (r, w') = m w in proceed r status text next w'

-- `decodeJSON`, and the answer to a body that does not decode.
unfoldable pub decoded : {A : Type 0} → Option A → (A → Handler) → Handler
decoded none next = write_error 400 "invalid request body"
decoded (some a) next = next a
