-- ===== src/Platforms/GitHub/Models.antt =====
-- github/models.go, and the decoding of its types by encoding/json as an interface. A pointer that may
-- be nil is an option, and numbers are those that the server counts by.
use contribution_tracker.Prelude.{ℕ, String, Option, List}
use contribution_tracker.Database.Session.{Result}

pub record GhCommitUser : Type 0 where
  pub name : String
  pub email : String
  pub date : ℕ

pub record GhCommitData : Type 0 where
  pub message : String
  pub author : GhCommitUser

pub record GhCommit : Type 0 where
  pub sha : String
  pub commit : GhCommitData
  pub html_url : String

pub record GhLabel : Type 0 where
  pub name : String

pub record GhSearchRepo : Type 0 where
  pub full_name : String

pub record GhPrRef : Type 0 where
  pub merged_at : Option ℕ
  pub html_url : String

pub record GhIssue : Type 0 where
  pub id : ℕ
  pub number : ℕ
  pub title : String
  pub state : String
  pub html_url : String
  pub created_at : ℕ
  pub labels : List GhLabel
  pub repository : Option GhSearchRepo
  pub pull_request : Option GhPrRef

pub record GhUser : Type 0 where
  pub login : String

pub record GhReview : Type 0 where
  pub id : ℕ
  pub state : String
  pub html_url : String
  pub submitted_at : ℕ
  pub user : GhUser

pub record GhRepository : Type 0 where
  pub id : ℕ
  pub name : String
  pub full_name : String
  pub html_url : String

-- `search` gives the field `items` of a `ghSearchResult`, the only one that is read.
pub record GitHubJson : Type 0 where
  pub commits : String → Result (List GhCommit)
  pub search : String → Result (List GhIssue)
  pub reviews : String → Result (List GhReview)
  pub repositories : String → Result (List GhRepository)
