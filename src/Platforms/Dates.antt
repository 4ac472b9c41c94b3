-- ===== src/Platforms/Dates.antt =====
-- The times of a report's reviews against the query's period.
use contribution_tracker.Prelude.{ℕ, String, ◌≡◌, ◌≤◌, true, List, All, arith}
use contribution_tracker.Domain.{Activity, commit, issue, merged_pull_request, pull_request_review}
use contribution_tracker.Database.Session.{World}
use contribution_tracker.Platforms.Wiring.{Outside, registry_of}
use contribution_tracker.Platforms.Given.{Makes, program_report-Contains}
use contribution_tracker.Platforms.GitHub
use contribution_tracker.Platforms.GitHub.Models.{GhReview}
use contribution_tracker.Platforms.GitLab
use contribution_tracker.Platforms.GitLab.Models.{GlNote}
use contribution_tracker.Report.{Order, ReportQuery, Thread, generate_report}
use contribution_tracker.Report.Contents.{Contains}
use contribution_tracker.Report.Totals.{Interleaves}

-- A review was submitted from `since` on and not after `until`; of the rest nothing is said.
abbrev pub IsReviewOf : ℕ → ℕ → Activity → Type 0
IsReviewOf since until (commit _) = Unit
IsReviewOf since until (issue _) = Unit
IsReviewOf since until (merged_pull_request _) = Unit
IsReviewOf since until (pull_request_review r) = (since ≤ r.submitted_at) × (r.submitted_at ≤ until)

github_review_in_time :
    (username : String) (since until : ℕ) (r : GhReview)
    → GitHub.is_wanted username since until r ≡ true
    → (since ≤ r.submitted_at) × (r.submitted_at ≤ until)
github_review_in_time username since until r e = ground arith

gitlab_note_in_time :
    (username : String) (since until : ℕ) (n : GlNote)
    → GitLab.is_wanted username since until n ≡ true
    → (since ≤ n.created_at) × (n.created_at ≤ until)
gitlab_note_in_time username since until n e = ground arith

made-IsReviewOf : (q : ReportQuery) → Makes (IsReviewOf q.since q.until) q
made-IsReviewOf q = record {
  github_commit = λ asked x. tt;
  github_review =
      λ asked username pr x wanted. github_review_in_time username q.since q.until x wanted;
  github_issue = λ asked x. tt;
  github_merged = λ asked x. tt;
  gitlab_commit = λ asked x. tt;
  gitlab_issue = λ asked x. tt;
  gitlab_merged = λ asked x. tt;
  gitlab_note = λ asked username mr x wanted. gitlab_note_in_time username q.since q.until x wanted;
}

-- Where the goroutines' appends interleave: every review in every report of the stream was submitted
-- from the query's beginning on and not after its end.
pub generate_report-IsReviewOf :
    (o : Outside) (getenv : String → String) (order : Order)
    → ((ts : List Thread) → Interleaves ts (order.run ts))
    → (q : ReportQuery) (w : World)
    → All
        (Contains (IsReviewOf q.since q.until))
        (generate_report order (registry_of o getenv) q w).0
generate_report-IsReviewOf o getenv order interleaved q w =
    program_report-Contains (IsReviewOf q.since q.until) q o getenv order interleaved
      (made-IsReviewOf q) w
