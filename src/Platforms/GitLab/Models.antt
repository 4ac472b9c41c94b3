-- ===== src/Platforms/GitLab/Models.antt =====
-- gitlab/models.go, and the decoding of its types by encoding/json as an interface.
use contribution_tracker.Prelude.{ℕ, String, Bool, Option, List}
use contribution_tracker.Database.Session.{Result}

pub record GlCommit : Type 0 where
  pub id : String
  pub short_id : String
  pub title : String
  pub message : String
  pub author_name : String
  pub author_email : String
  pub authored_date : ℕ
  pub committed_date : ℕ
  pub web_url : String

pub record GlIssue : Type 0 where
  pub id : ℕ
  pub iid : ℕ
  pub title : String
  pub state : String
  pub web_url : String
  pub created_at : ℕ
  pub labels : List String

pub record GlMergeRequest : Type 0 where
  pub id : ℕ
  pub iid : ℕ
  pub title : String
  pub state : String
  pub web_url : String
  pub created_at : ℕ
  pub merged_at : Option ℕ

pub record GlProject : Type 0 where
  pub id : ℕ
  pub name : String
  pub path_with_namespace : String
  pub web_url : String

pub record GlAuthor : Type 0 where
  pub username : String

pub record GlNote : Type 0 where
  pub id : ℕ
  pub body : String
  pub author : GlAuthor
  pub created_at : ℕ
  pub is_system : Bool
  pub noteable : String

pub record GitLabJson : Type 0 where
  pub commits : String → Result (List GlCommit)
  pub issues : String → Result (List GlIssue)
  pub merge_requests : String → Result (List GlMergeRequest)
  pub notes : String → Result (List GlNote)
  pub projects : String → Result (List GlProject)
