-- ===== src/Database/Found.antt =====
-- What a team that was found says of the database.
use contribution_tracker.Prelude.{
  String, ◌≡◌, ◌∙◌, sym, ap, some, List, [], ◌∷◌, find, ◌==◌, arith, eq_iff,
}
use mathlib.Core.Path.{subst₂}
use contribution_tracker.Domain.{Team}
use contribution_tracker.Database.Schema.{Db, TeamRow, linked}
use contribution_tracker.Database.Session.{ok, World}
use contribution_tracker.Database.Success.{bind-ok, wrap-ok, query-ok, query_row-ok, pure-ok}
use contribution_tracker.Database.Teams.{load_relations, find_by_id}

pub find-eq-some :
    (id : String) (ts : List TeamRow) (t : TeamRow) → find (λ t. t.id == id) ts ≡ some t → t.id ≡ id
find-eq-some id [] t e = cc
find-eq-some id (x ∷ ts) t e = ground (arith, find-eq-some id ts t, eq_iff x.id id)

-- A team as the link tables have it.
pub record IsLoaded (t : Team) (id : String) (d : Db) : Type 0 where
  pub same_id : t.id ≡ id
  pub leaders : t.leader_ids ≡ linked id d.team_leaders
  pub members : t.member_ids ≡ linked id d.team_members
  pub repositories : t.repository_ids ≡ linked id d.team_repositories

pub load_relations-ok :
    (r : TeamRow) (w w' : World) (t : Team)
    → load_relations r w ≡ (ok t, w')
    → IsLoaded t r.id w.db × (w'.db ≡ w.db)
unfolding load_relations
load_relations-ok r w w' t e =
    let (ls, w1, e1, k1) = bind-ok _ _ w w' e in
    let (ms, w2, e2, k2) = bind-ok _ _ w1 w' k1 in
    let (rs, w3, e3, k3) = bind-ok _ _ w2 w' k2 in
    let (l, s1) = query-ok _ w w1 (wrap-ok _ _ w w1 e1) in
    let (m, s2) = query-ok _ w1 w2 (wrap-ok _ _ w1 w2 e2) in
    let (p, s3) = query-ok _ w2 w3 (wrap-ok _ _ w2 w3 e3) in
    let (q, s4) = pure-ok _ t w3 w' k3 in
    (
      record {
        same_id = ap (λ t. t.id) (sym q);
        leaders = ap (λ t. t.leader_ids) (sym q) ∙ sym l;
        members = ap (λ t. t.member_ids) (sym q) ∙ sym m ∙ ap (λ d. linked r.id d.team_members) s1;
        repositories =
            ap (λ t. t.repository_ids) (sym q)
            ∙ sym p
            ∙ ap (λ d. linked r.id d.team_repositories) (s2 ∙ s1);
      },
      ap (λ w. w.db) (sym s4) ∙ s3 ∙ s2 ∙ s1,
    )

-- A team that was found has the identifier asked for and the links of the database.
pub find_by_id-ok :
    (id : String) (w w' : World) (t : Team)
    → find_by_id id w ≡ (ok t, w')
    → IsLoaded t id w.db × (w'.db ≡ w.db)
unfolding find_by_id
find_by_id-ok id w w' t e =
    let (r, w1, e1, k1) = bind-ok _ _ w w' e in
    let (found, s1) = query_row-ok _ w w1 (wrap-ok _ _ w w1 e1) in
    let (loaded, s2) = load_relations-ok r w1 w' t k1 in
    let same : r.id ≡ id = find-eq-some id w.db.teams r found in
    (subst₂ (λ a d. IsLoaded t a d) same s1 loaded, s2 ∙ s1)
