-- ===== src/Platforms/Client.antt =====
-- `ApiClient` of github/client.go and gitlab/client.go. The two differ in the headers that they set
-- and in how they find the next page, which are parameters here.
pub mod Paging
use contribution_tracker.Prelude.{
  ℕ, zero, suc, String, Bool, ◌||◌, List, [], ◌∷◌, ◌==◌, ltb, leb, eqb, if◌then◌else◌, is_prefix,
}
use Prim.Native.Char.{Char, code}
use Prim.Native.String
use contribution_tracker.Report.Outcomes.{Outcome, value, error, unfinished, ◌>>=◌, text_of}
use contribution_tracker.Platforms.Http.{
  HttpRequest, HttpReply, Sent, not_created, not_executed, not_read, replied, Network, Formats,
}

pub record ApiClient : Type 0 where
  pub base_url : String
  pub api_key : String

abbrev is_slash : Char → Bool
is_slash c = eqb (code c) b'/'

-- `strings.TrimRight(s, "/")`: a slash stays only before a character that stays.
abbrev put_before : Char → String → String
put_before c String.[] = if is_slash c then String.[] else String.◌∷◌ c String.[]
put_before c (String.◌∷◌ d s) = String.◌∷◌ c (String.◌∷◌ d s)

abbrev pub trim_slashes : String → String
trim_slashes String.[] = String.[]
trim_slashes (String.◌∷◌ c s) = put_before c (trim_slashes s)

unfoldable pub new_api_client : String → String → ApiClient
new_api_client base_url api_key = record { base_url = trim_slashes base_url; api_key = api_key }

abbrev pub absolute : ApiClient → String → String
absolute c url = if is_prefix "http" url then url else String.◌++◌ c.base_url url

abbrev pub bad_status : ℕ → Bool
bad_status status = ltb status 200 || leb 300 status

-- What the client makes of a request that was sent.
abbrev pub received : Formats → Sent → Outcome HttpReply
received lib (not_created e) = error (String.◌++◌ "creating request: " e)
received lib (not_executed e) = error (String.◌++◌ "executing request: " e)
received lib (not_read e) = error (String.◌++◌ "reading response body: " e)
received lib (replied r) =
    if bad_status r.status
    then error (text_of ("unexpected status " ∷ lib.decimal r.status ∷ ": " ∷ r.body ∷ []))
    else value r

module _ (lib : Formats) (net : Network) (headers : List (String × String)) where
  abbrev pub requested : String → Outcome HttpReply
  requested url = received lib (net (record { url = url; headers = headers }))

  abbrev pub get_body : String → Outcome String
  get_body url = requested url >>= λ r. value r.body

  -- The loop of `GetAll`: `next` finds the next page's URL, which is empty after the last page.
  module _ (next : String → HttpReply → String) where
    unfoldable pub get_pages : ℕ → String → Outcome (List String)
    get_pages zero url = if url == "" then value [] else unfinished
    get_pages (suc n) url =
        let rest : Outcome (List String) =
          requested url >>= λ r. get_pages n (next url r) >>= λ pages. value (r.body ∷ pages) in
        if url == "" then value [] else rest
