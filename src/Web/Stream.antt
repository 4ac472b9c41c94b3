-- ===== src/Web/Stream.antt =====
-- report_handler.go: `ReportHandler`, sse.go, and the report's DTOs of dto.go.
use contribution_tracker.Prelude.{
  ℕ, String, Bool, Option, none, some, List, [], ◌∷◌, ◌==◌, if◌then◌else◌, map,
}
use contribution_tracker.Domain.{
  Activity, ActivityType, get_data, get_summary, get_type, activity_type_commit,
  activity_type_merged_pull_request, activity_type_issue, activity_type_pull_request_review,
}
use contribution_tracker.Database.Session.{World}
use contribution_tracker.Auth.{AuthContext}
use contribution_tracker.Report.{
  ReportQuery, UserReport, ReportEvent, user_report, complete, failed, Order, generate_report,
}
use contribution_tracker.Report.Counts.{ActivityCount}
use contribution_tracker.Report.Fetching.{Registry}
use contribution_tracker.Web.Responses.{
  Handler, Response, write_json, write_error, decoded, stream, ReportRequestDto, ActivityDto,
  ActivityCountDto, UserReportDto, SseEvent, user_to_dto,
}

-- `parse_date` is `time.Parse` of a date, `format_time` the `Format` of `ActivityToDTO`, and
-- `can_flush` tells whether the writer is an `http.Flusher`.
pub record Wire : Type 0 where
  pub parse_date : String → Option ℕ
  pub format_time : ℕ → String
  pub can_flush : Bool

abbrev pub activity_to_dto : Wire → Activity → ActivityDto
activity_to_dto wire a = record {
  kind = (get_type a).name;
  display_name = (get_type a).display_name;
  title = (get_data a).title;
  url = (get_data a).url;
  created_at = wire.format_time (get_data a).created_at;
  summary = get_summary a;
}

abbrev pub count_to_dto : ActivityCount → ActivityCountDto
count_to_dto c = record { kind = c.kind.name; display_name = c.kind.display_name; count = c.count }

unfoldable pub user_report_to_dto : Wire → UserReport → UserReportDto
user_report_to_dto wire r = record {
  user = user_to_dto r.user;
  counts = map count_to_dto r.counts;
  activities = map (activity_to_dto wire) r.activities;
}

abbrev pub sse_event : Wire → ReportEvent → SseEvent
sse_event wire (user_report r) = record {
  kind = "USER_REPORT";
  report = some (user_report_to_dto wire r);
  error = "";
}
sse_event wire complete = record { kind = "COMPLETE"; report = none; error = "" }
sse_event wire (failed text) = record { kind = "ERROR"; report = none; error = text }

-- The `switch` over the requested types: an unknown name is passed over.
abbrev pub type_named : String → Option ActivityType
type_named t =
    if t == "COMMIT"
    then some activity_type_commit
    else if t == "MERGED_PR"
    then some activity_type_merged_pull_request
    else if t == "ISSUE"
    then some activity_type_issue
    else if t == "PR_REVIEW"
    then some activity_type_pull_request_review
    else none

abbrev pub or_skipped : Option ActivityType → List ActivityType → List ActivityType
or_skipped none ts = ts
or_skipped (some t) ts = t ∷ ts

unfoldable pub types_named : List String → List ActivityType
types_named [] = []
types_named (t ∷ ts) = or_skipped (type_named t) (types_named ts)

abbrev pub query_for : AuthContext → ReportRequestDto → ℕ → ℕ → ReportQuery
query_for c req since until = record {
  team_id = req.team_id;
  member_id = req.member_id;
  caller_id = c.user_id;
  caller_roles = c.roles;
  since = since;
  until = until;
  types = types_named req.types;
  report_type = req.report_type;
}

abbrev pub streamed : Wire → List ReportEvent × World → Response × World
streamed wire (events, w) = write_json 200 (stream (map (sse_event wire) events)) w

-- The stream, once both dates are read: the events in the order in which the service sends them. One
-- that has no completion or error is broken off, or stays open.
unfoldable pub stream_events : Wire → Order → Registry → ReportQuery → Handler
stream_events wire order registry q w =
    if wire.can_flush
    then streamed wire (generate_report order registry q w)
    else write_error 500 "streaming not supported" w

abbrev pub dated : Option ℕ → String → (ℕ → Handler) → Handler
dated none text next = write_error 400 text
dated (some t) text next = next t

unfoldable pub stream_report :
    Wire → Order → Registry → Option AuthContext → Option ReportRequestDto → Handler
stream_report wire order registry none body = write_error 401 "not authenticated"
stream_report wire order registry (some c) body = decoded body λ req.
    dated (wire.parse_date req.since) "invalid since date" λ since.
      dated (wire.parse_date req.until) "invalid until date"
        λ until. stream_events wire order registry (query_for c req since until)
