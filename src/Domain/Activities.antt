-- ===== src/Domain/Activities.antt =====
-- The kinds of activity: commit.go, issue.go, merged_pull_request.go, pull_request_review.go.
use contribution_tracker.Prelude.{ℕ, String, List}

pub record ActivityType : Type 0 where
  pub name : String
  pub display_name : String

abbrev pub activity_type_commit : ActivityType
activity_type_commit = record { name = "COMMIT"; display_name = "Commit" }

abbrev pub activity_type_merged_pull_request : ActivityType
activity_type_merged_pull_request = record { name = "MERGED_PR"; display_name = "Merged PR" }

abbrev pub activity_type_issue : ActivityType
activity_type_issue = record { name = "ISSUE"; display_name = "Issue" }

abbrev pub activity_type_pull_request_review : ActivityType
activity_type_pull_request_review = record { name = "PR_REVIEW"; display_name = "PR Review" }

pub record ActivityData : Type 0 where
  pub title : String
  pub url : String
  pub created_at : ℕ

pub record Commit : Type 0 where
  pub base : ActivityData
  pub sha : String
  pub message : String

pub record MergedPullRequest : Type 0 where
  pub base : ActivityData
  pub title : String
  pub merged_at : ℕ

pub record Issue : Type 0 where
  pub base : ActivityData
  pub title : String
  pub state : String
  pub labels : List String

pub record PullRequestReview : Type 0 where
  pub base : ActivityData
  pub pull_request_title : String
  pub state : String
  pub submitted_at : ℕ

-- The interface `Activity`: a constructor for each type that implements it.
pub data Activity : Type 0 where
  commit : Commit → Activity
  merged_pull_request : MergedPullRequest → Activity
  issue : Issue → Activity
  pull_request_review : PullRequestReview → Activity

abbrev pub get_data : Activity → ActivityData
get_data (commit c) = c.base
get_data (merged_pull_request pr) = pr.base
get_data (issue i) = i.base
get_data (pull_request_review r) = r.base

abbrev pub get_type : Activity → ActivityType
get_type (commit c) = activity_type_commit
get_type (merged_pull_request pr) = activity_type_merged_pull_request
get_type (issue i) = activity_type_issue
get_type (pull_request_review r) = activity_type_pull_request_review

abbrev pub get_summary : Activity → String
get_summary (commit c) = c.message
get_summary (merged_pull_request pr) = pr.title
get_summary (issue i) = i.title
get_summary (pull_request_review r) = r.pull_request_title

-- issue_state.go and review_state.go
abbrev pub issue_state_open : String
issue_state_open = "OPEN"

abbrev pub issue_state_closed : String
issue_state_closed = "CLOSED"

abbrev pub review_state_approved : String
review_state_approved = "APPROVED"

abbrev pub review_state_changes_requested : String
review_state_changes_requested = "CHANGES_REQUESTED"

abbrev pub review_state_commented : String
review_state_commented = "COMMENTED"
