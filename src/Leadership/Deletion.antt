-- ===== src/Leadership/Deletion.antt =====
-- `DeleteUser` of admin_handler.go leaves a leader to every team, where no statement fails.
use contribution_tracker.Prelude.{
  String, ◌≡◌, refl, sym, ap, ◌∙◌, ◌+◌, ◌≤◌, Bool, true, false, ◌&&◌, Option, some, none, List, [],
  ◌∷◌, not, if◌then◌else◌, ◌||◌, inl, inr, Bool-cases, ◌==◌, eq_iff, arith, any, find, keep, map,
  count, contains, length, eqb,
}
use mathlib.Core.Path.{subst}
use contribution_tracker.Domain.{Team}
use contribution_tracker.Database.Schema.{
  Db, Link, TeamRow, has_link, has_team, is_link, linked, delete_user,
}
use contribution_tracker.Database.Session.{wrap, exec}
use contribution_tracker.Database.Links.{contains-linked}
use contribution_tracker.Database.Calm.{calm, loaded_team, find_teams_of-calm}
use contribution_tracker.Database.Accounts
use contribution_tracker.Database.Users
use contribution_tracker.Web.Admin
use contribution_tracker.Web.Admin.{blocking, only_leader, unless_blocked}
use contribution_tracker.Web.Responses.{write_json, or_error}
use contribution_tracker.Leadership.Invariant.{LeadersAreMembers}
use contribution_tracker.Leadership.Guards.{IsKey}

-- The user alone leads the team.
abbrev alone : String → List Link → String → Bool
alone user ls t = contains user (linked t ls) && eqb (length (linked t ls)) 1

tested :
    (b : Bool) (t : Team) (o : Option Team)
    → (if b then some t else o) ≡ none
    → (b ≡ false) × (o ≡ none)
tested true t o e = cc
tested false t o e = (refl, e)

abbrev led_alone : String → Db → List TeamRow → Option Team
led_alone user d rows =
    find (only_leader user)
      (map (loaded_team d) (keep (λ r. has_link r.id user d.team_members) rows))

passed :
    (user : String) (d : Db) (r : TeamRow) (rs : List TeamRow)
    → led_alone user d (r ∷ rs) ≡ none
    → (has_link r.id user d.team_members ≡ true → alone user d.team_leaders r.id ≡ false)
      × (led_alone user d rs ≡ none)
passed user d r rs e = by_link (has_link r.id user d.team_members) e
  where
    kept : List TeamRow
    kept = keep (λ r. has_link r.id user d.team_members) rs

    by_link :
        (b : Bool)
        → find (only_leader user) (map (loaded_team d) (if b then r ∷ kept else kept)) ≡ none
        → (b ≡ true → alone user d.team_leaders r.id ≡ false) × (led_alone user d rs ≡ none)
    by_link true e =
        let (first, rest) =
          tested (alone user d.team_leaders r.id) (loaded_team d r) (led_alone user d rs) e in
        (λ _. first, rest)
    by_link false e = (λ wrong. cc, e)

find-none :
    (user t : String) (d : Db) (rows : List TeamRow)
    → led_alone user d rows ≡ none
    → any (λ r. r.id == t) rows ≡ true
    → has_link t user d.team_members ≡ true
    → alone user d.team_leaders t ≡ false
find-none user t d [] e known member = cc
find-none user t d (r ∷ rs) e known member =
    let (first, rest) = passed user d r rs e in
    elim (Bool-cases (r.id == t)) [
      | inl here ↦
          let same : r.id ≡ t = (eq_iff r.id t).0 here in
          subst (λ t. alone user d.team_leaders t ≡ false) same
            (first (ap (λ t. has_link t user d.team_members) same ∙ member))
      | inr there ↦
          find-none user t d rs rest (sym (ap (λ b. b || any (λ r. r.id == t) rs) there) ∙ known)
            member
    ]

linked-without :
    (t user : String) (ls : List Link)
    → length (linked t (keep (λ l. not (l.1 == user)) ls)) + count (is_link t user) ls
      ≡ length (linked t ls)
linked-without t user [] = omega arith
linked-without t user ((a, b) ∷ ls) = ground (arith, linked-without t user ls)

count-none : (p : Link → Bool) (ls : List Link) → any p ls ≡ false → count p ls ≡ 0
count-none p [] e = refl
count-none p (l ∷ ls) e = ground (arith, count-none p ls)

-- The tables after the two statements.
removed :
    (user refusal no_rows : String) (d : Db)
    → (Admin.delete_account_and_user user (calm d refusal no_rows)).1.db.team_leaders
      ≡ keep (λ l. not (l.1 == user)) d.team_leaders
unfolding Admin.delete_account_and_user Accounts.delete Users.delete or_error write_json wrap exec
    delete_user
removed user refusal no_rows d = refl

still_led :
    (t user : String) (d : Db)
    → LeadersAreMembers d
    → IsKey d.team_leaders
    → has_team t d ≡ true
    → 1 ≤ length (linked t d.team_leaders)
    → led_alone user d d.teams ≡ none
    → 1 ≤ length (linked t (keep (λ l. not (l.1 == user)) d.team_leaders))
still_led t user d members key known led unblocked =
    elim (Bool-cases (has_link t user d.team_leaders)) [
      | inl leads ↦ ground (
        arith,
        find-none user t d d.teams unblocked known (members t user leads),
        contains-linked t user d.team_leaders,
        leads,
        key t user,
        linked-without t user d.team_leaders,
      )
      | inr other ↦ omega (
        arith,
        count-none (is_link t user) d.team_leaders other,
        linked-without t user d.team_leaders,
        led,
      )
    ]

answered :
    (t user refusal no_rows : String) (d : Db) (o : Option Team)
    → led_alone user d d.teams ≡ o
    → LeadersAreMembers d
    → IsKey d.team_leaders
    → has_team t d ≡ true
    → 1 ≤ length (linked t d.team_leaders)
    → 1 ≤ length (linked t (unless_blocked user o (calm d refusal no_rows)).1.db.team_leaders)
unfolding write_json
answered t user refusal no_rows d (some blocked) e members key known led = led
answered t user refusal no_rows d none e members key known led =
    subst (λ ls. 1 ≤ length (linked t ls)) (sym (removed user refusal no_rows d))
      (still_led t user d members key known led e)

-- Where no statement fails, every leader is a member and the primary key of the leaders' table holds:
-- a team that is there and has a leader has one after `DeleteUser`, whichever user it is called for.
pub delete_user-led :
    (t user refusal no_rows : String) (d : Db)
    → LeadersAreMembers d
    → IsKey d.team_leaders
    → has_team t d ≡ true
    → 1 ≤ length (linked t d.team_leaders)
    → 1 ≤ length (linked t (Admin.delete_user user (calm d refusal no_rows)).1.db.team_leaders)
unfolding Admin.delete_user
delete_user-led t user refusal no_rows d members key known led =
    subst (λ ls. 1 ≤ length (linked t ls))
      (sym (
        ap (λ p. (unless_blocked user (blocking user p.0) p.1).1.db.team_leaders)
          (find_teams_of-calm d refusal no_rows user)))
      (answered t user refusal no_rows d (led_alone user d d.teams) refl members key known led)
