-- ===== src/Lib.antt =====
-- contribution-tracker: a web service that reports what the members of a team have contributed to
-- the team's GitHub and GitLab repositories.
--
-- A request comes in at the router (src/internal/presentation/router.go), passes the middleware
-- (middleware.go), which has the token validated by the authentication service
-- (src/internal/application/auth_service.go), and ends in a handler (admin_handler.go,
-- team_handler.go, profile_handler.go, config_handler.go, auth_handler.go, report_handler.go). The
-- handlers call the repositories of src/internal/infrastructure/persistence, which run SQL, and the
-- report service (src/internal/application/report_service.go), which has fetchers collect
-- activities at the same time and sends events to the handler.
--
-- How the files correspond to the code:
--   Prelude        lists, maps, texts and Boolean tests
--   Domain         src/internal/domain: entities, Domain/Activities and Domain/Roles
--   Database       Schema: the tables with their constraints; Session: a statement, its errors and
--                  transactions; Teams, Users, Accounts, Repositories, Config: the pgx_*_repo.go and
--                  pgx_repository_store.go, one function for each method; Backups:
--                  pgx_backup_repo.go; Migrator: migrator.go, over a store and a disk of its own;
--                  Success, Calm, Keeps, Reads, Found, Links, Runs, Restoring, Exporting, Passing,
--                  Accepting, Entries, Usernames, Copies: lemmas; Rosters: the link tables as
--                  relations; Saving, RoleTexts, Upserting, RosterChanges, Restored, Accepted,
--                  RoundTrip, Migrations, Remigrating: properties
--   Auth           auth_service.go: `login` and `validate`; Auth/Library: golang-jwt as an interface
--   Report         report_service.go: `generate_report`, `fetch_member_report`; Report/Fetching:
--                  registry.go and the ports of ports.go; Report/Groups and Report/Counts: the
--                  grouping of repositories and `buildActivityCounts`; Outcomes: how a call of
--                  a fetcher ends; Keys, Unended: lemmas; Visibility, Delivery, Totals,
--                  Partition: properties; Contents: which activities a report has
--   Platforms      Client: client.go of src/internal/infrastructure/github and gitlab, which differ in
--                  their headers and in how they find the next page; Client/Paging: the loop of
--                  `GetAll`; Sets: the sets of names of both fetcher.go; GitHub and GitLab: the rest of
--                  each package, with its models, GitHub/Links for `parseNextLink` and GitLab/Pages for
--                  `nextPageURL`; Wiring: the registry of src/cmd/api/main.go; Yields, FromGitHub,
--                  FromGitLab, Given: what holds of all that the fetchers give; Types, Dates,
--                  Complete, Paths, Parameters, NextLink: properties
--   Web            Responses: helpers.go and dto.go; Middleware: middleware.go; Admin and Roles:
--                  admin_handler.go; Repositories: team_handler.go; Profile: profile_handler.go,
--                  config_handler.go and auth_handler.go; Backups: backup_handler.go and
--                  backup_service.go; Stream: report_handler.go; Router: router.go, whose
--                  `serve` takes a request to its response; Closed: what every request keeps, for
--                  a property given by what the statements keep
--   Leadership     leaders are members, and the guards on a team's last leader
--   Access         who may change the database, and what a token stands for
--   Examples       concrete databases and requests
--
-- The state is `World`: the database as lists of rows, and the failures that the coming
-- statements meet (`outages`), so that every error path can be taken. A method that returns an
-- error is a function into `Result`; a change that a constraint forbids is refused. Requests run
-- one after the other: what two requests at a time may do to each other is not modelled. The
-- goroutines of a report are lists of appends, and what they leave is a parameter of which a
-- theorem assumes that the appends interleave; so is the order in which Go visits a map. A server
-- answers a request alike as long as a call of a fetcher lasts. A call of a fetcher ends with a
-- value or an error, or the program crashes, or `GetAll` goes on after the number of rounds that
-- was granted to it, its only fuel: as many rounds as there are pages are enough. After a crash,
-- and while a call does not end, a report sends no other event; the database is then that of a
-- schedule in which the loop over the groups went on as far as it could.  Every other loop runs
-- over a list. Numbers are natural numbers: times are in seconds. Texts are lists of characters,
-- where Go has bytes; a text that goes to the database is one that it stores, but for a token
-- that a restore decodes, which is tested. A query that fails gives an error: that rows are lost
-- without one, as `rows.Err()` is not looked at, is not modelled.
--
-- Parameters: golang-jwt, bcrypt, google/uuid, `time.Parse` and `Format`, `strings.ToUpper`, net/http,
-- net/url, encoding/json, encoding/base64, the directory of migrations and what running a file does.
-- The report service takes any fetchers; what stands under Platforms is about those of the program.
--
-- Not modelled: chi's matching of paths and its own middleware, the bytes of the event stream, serving
-- static files, the connection pool, start and shutdown of the server, logging and contexts, which are
-- input and output or another library's work; `AppError`, `repoFromURL`, `ghPullRequest` and the lists
-- of supported platforms and types, which nothing in the program uses; the front end.
pub mod Access
pub mod Auth
pub mod Database
pub mod Domain
pub mod Examples
pub mod Leadership
pub mod Platforms
pub mod Prelude
pub mod Report
pub mod Web
