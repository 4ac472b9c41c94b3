-- ===== src/Examples/Data.antt =====
-- A small database, with an environment whose libraries are concrete functions.
use Prim.Native.String
use contribution_tracker.Database.Backups.{Base64}
use contribution_tracker.Prelude.{
  strip_prefix, contains_text, not, String, true, Option, some, none, List, [], ◌∷◌, ◌++◌, ◌==◌,
}
use contribution_tracker.Domain.{Activity, BackupFile, Repository, platform_git_hub, role_admin}
use contribution_tracker.Domain.Activities
use contribution_tracker.Database.Schema.{Db, UserRow, AccountRow, TeamRow}
use contribution_tracker.Database.Session.{World}
use contribution_tracker.Auth.Library.{Claims, Jwt, Secret, Token}
use contribution_tracker.Report.{Order, ReportQuery, Thread}
use contribution_tracker.Report.Outcomes.{value}
use contribution_tracker.Report.Fetching.{ActivityFetcher, Registry}
use contribution_tracker.Web.Router.{Env}

abbrev pub ann : UserRow
ann = record { id = "u-ann"; username = "ann"; display_name = "Ann"; email = ""; avatar_url = "" }

abbrev pub bob : UserRow
bob = record { id = "u-bob"; username = "bob"; display_name = "Bob"; email = ""; avatar_url = "" }

abbrev pub ann_account : AccountRow
ann_account = record {
  id = "a-ann";
  username = "ann";
  password_hash = "h";
  roles = role_admin ∷ [];
  user_id = "u-ann";
}

abbrev pub core_team : TeamRow
core_team = record { id = "t-core"; name = "Core" }

abbrev pub tracker : Repository
tracker = record {
  id = "r-1";
  name = "tracker";
  full_name = "org/tracker";
  url = "";
  platform = platform_git_hub;
  api_token = "key";
}

abbrev pub mirror : Repository
mirror = record tracker { id = "r-2"; full_name = "org/mirror"; api_token = "" }

-- Ann leads the team, Bob is a member of it.
abbrev pub small_db : Db
small_db = record {
  users = ann ∷ bob ∷ [];
  platform_usernames = [];
  accounts = ann_account ∷ [];
  teams = core_team ∷ [];
  team_leaders = ("t-core", "u-ann") ∷ [];
  team_members = ("t-core", "u-ann") ∷ ("t-core", "u-bob") ∷ [];
  repositories = tracker ∷ mirror ∷ [];
  team_repositories = ("t-core", "r-1") ∷ ("t-core", "r-2") ∷ [];
  app_config = [];
  collation = λ _ _. true;
}

abbrev pub small_world : World
small_world = record {
  db = small_db;
  outages = [];
  refusal = "refused";
  no_rows = "no rows in result set";
}

-- The text of a token is its subject, and every subject is an administrator.
abbrev pub claims_for : String → Claims
claims_for text = record {
  subject = text;
  roles = some (some role_admin ∷ []);
  exp = 86400;
  iat = 0;
}

abbrev pub token_for : Option Secret → String → Option Token
token_for none text = none
token_for (some secret) text = some (record { valid = true; claims = some (claims_for text) })

abbrev pub plain_jwt : Jwt
plain_jwt = record {
  sign = λ secret claims. some claims.subject;
  parse = λ now key text. token_for (key true) text;
}

abbrev pub first_commit : Activity
first_commit = Activities.commit (record {
  base = record { title = "first"; url = ""; created_at = 1 };
  sha = "abc";
  message = "first";
})

-- A fetcher that finds one commit in each repository and another by its search.
abbrev pub commit_fetcher : ActivityFetcher
commit_fetcher = record {
  fetch_for_user = λ _ _ _ _ _. value (first_commit ∷ []);
  search_activities = λ _ _ _ _ _. value (first_commit ∷ []);
  discover_user_repos = none;
}

abbrev pub small_registry : Registry
small_registry = ("GITHUB", λ _. commit_fetcher) ∷ []

-- The goroutines one after the other.
abbrev pub flat : Thread → List Activity
flat [] = []
flat (found ∷ rest) = found ++ flat rest

abbrev pub one_by_one : List Thread → List Activity
one_by_one [] = []
one_by_one (t ∷ ts) = flat t ++ one_by_one ts

abbrev pub sequential : Order
sequential = record { groups_of = λ m. m; counts_of = λ cs. cs; run = one_by_one }

-- An encoding that puts a mark before the text, and decodes what has it.
abbrev pub marked : Base64
marked = record {
  encode = λ s. String.◌++◌ "=" s;
  decode = λ s. strip_prefix "=" s;
  is_text = λ s. not (contains_text "\0" s);
}

-- A file with two users, of whom one leads the team and both are members.
abbrev pub small_file : BackupFile
small_file = record {
  metadata = record { app_version = "1.0.0"; exported_at = 0; exported_by = "" };
  users =
      record {
        id = "u-ann";
        username = "ann";
        display_name = "Ann";
        email = "";
        avatar_url = "";
        platform_usernames = ("GITHUB", "ann-hub") ∷ [];
      }
      ∷ record {
        id = "u-bob";
        username = "bob";
        display_name = "Bob";
        email = "";
        avatar_url = "";
        platform_usernames = [];
      }
      ∷ [];
  accounts =
      record {
        id = "a-ann";
        username = "ann";
        password_hash = "h";
        roles = (role_admin, true) ∷ [];
        user_id = "u-ann";
      }
      ∷ [];
  teams =
      record {
        id = "t-core";
        name = "Core";
        leader_ids = "u-ann" ∷ [];
        member_ids = "u-ann" ∷ "u-bob" ∷ [];
        repository_ids = "r-1" ∷ [];
      }
      ∷ [];
  repositories = record tracker { api_token = "=key" } ∷ [];
  config = ("theme", "dark") ∷ [];
}

abbrev pub small_env : Env
small_env = record {
  jwt = plain_jwt;
  secret = "secret";
  compare_hash = λ hash password. hash == password;
  now = 0;
  fresh = record { hash = λ p. some p; user_uuid = "1"; account_uuid = "2" };
  uuid = "3";
  to_upper = λ s. s;
  wire = record { parse_date = λ _. some 0; format_time = λ _. ""; can_flush = true };
  order = sequential;
  registry = small_registry;
  base64 = marked;
  visit = λ m. m;
}

abbrev pub team_query : ReportQuery
team_query = record {
  team_id = "t-core";
  member_id = "";
  caller_id = "u-ann";
  caller_roles = [];
  since = 0;
  until = 10;
  types = [];
  report_type = "";
}
