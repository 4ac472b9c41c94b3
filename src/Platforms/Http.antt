-- ===== src/Platforms/Http.antt =====
-- What the clients and fetchers take from net/http, net/url, time and strconv, as interfaces. A server
-- answers a request alike as long as a call of a fetcher lasts.
use contribution_tracker.Prelude.{ℕ, String, Option, List}

-- A request by the method GET.
pub record HttpRequest : Type 0 where
  pub url : String
  pub headers : List (String × String)

-- A response whose body was read; a header that is missing is the empty text.
pub record HttpReply : Type 0 where
  pub status : ℕ
  pub body : String
  pub header : String → String

-- The errors of `http.NewRequest`, of `Do` and of `io.ReadAll`.
pub data Sent : Type 0 where
  not_created : String → Sent
  not_executed : String → Sent
  not_read : String → Sent
  replied : HttpReply → Sent

abbrev pub Network : Type 0
Network = HttpRequest → Sent

-- `encode` is `url.Values.Encode` of the parameters that were set, `url_string` is `url.Parse` and
-- `String`, `url_path` the path of a URL that parses, and `rfc3339` and `date` are `Format`.
pub record Formats : Type 0 where
  pub decimal : ℕ → String
  pub encode : List (String × String) → String
  pub path_escape : String → String
  pub url_string : String → String
  pub url_path : String → Option String
  pub rfc3339 : ℕ → String
  pub date : ℕ → String
