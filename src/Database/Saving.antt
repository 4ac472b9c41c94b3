-- ===== src/Database/Saving.antt =====
-- `Save` of pgx_team_repo.go: its transaction, and what it leaves in the link tables.
use contribution_tracker.Prelude.{
  String, ◌≡◌, refl, sym, ap, ◌∙◌, Bool, true, false, some, List, [], ◌∷◌, ◌++◌, not, ◌==◌, eq_iff,
  arith, append_assoc, append_nil, keep, map, ◌⊎◌, inl, inr, if◌then◌else◌, eq_of_some,
}
use contribution_tracker.Domain.{Team}
use contribution_tracker.Database.Schema.{Db, Link, TeamRow, linked}
use contribution_tracker.Database.Session.{
  Result, ok, err, World, Sql, restored, committed, transaction,
}
use contribution_tracker.Database.Success.{bind-ok, wrap-ok, exec-ok, pure-ok}
use contribution_tracker.Database.Teams.{
  save, save_statements, insert_leader, insert_member, insert_leaders, insert_members,
  clear_leaders, clear_members, upsert_team,
}

-- The rows that link one team.
abbrev links : String → List String → List Link
links team ids = map (λ id. (team, id)) ids

-- Both tables, as two lists.
abbrev Tables : Db → List Link → List Link → Type 0
Tables d leaders members = (d.team_leaders ≡ leaders) × (d.team_members ≡ members)

one_leader :
    (team id : String) (d d' : Db)
    → insert_leader team id d ≡ some d'
    → Tables d' (d.team_leaders ++ (team, id) ∷ []) d.team_members
one_leader team id d d' e = ground arith

one_member :
    (team id : String) (d d' : Db)
    → insert_member team id d ≡ some d'
    → Tables d' d.team_leaders (d.team_members ++ (team, id) ∷ [])
one_member team id d d' e = ground arith

insert_leaders-ok :
    (team : String) (ids : List String) (w w' : World)
    → insert_leaders team ids w ≡ (ok tt, w')
    → Tables w'.db (w.db.team_leaders ++ links team ids) w.db.team_members
unfolding insert_leaders
insert_leaders-ok team [] w w' e =
    let (_, same) = pure-ok tt tt w w' e in
    (
      ap (λ w. w.db.team_leaders) (sym same) ∙ sym (append_nil w.db.team_leaders),
      ap (λ w. w.db.team_members) (sym same),
    )
insert_leaders-ok team (id ∷ ids) w w' e =
    let (_, w1, e1, k1) = bind-ok _ _ w w' e in
    let (l1, m1) = one_leader team id w.db w1.db (exec-ok _ w w1 (wrap-ok _ _ w w1 e1)) in
    let (l2, m2) = insert_leaders-ok team ids w1 w' k1 in
    (
      l2
          ∙ ap (λ l. l ++ links team ids) l1
          ∙ append_assoc w.db.team_leaders ((team, id) ∷ []) (links team ids),
      m2 ∙ m1,
    )

insert_members-ok :
    (team : String) (ids : List String) (w w' : World)
    → insert_members team ids w ≡ (ok tt, w')
    → Tables w'.db w.db.team_leaders (w.db.team_members ++ links team ids)
unfolding insert_members
insert_members-ok team [] w w' e =
    let (_, same) = pure-ok tt tt w w' e in
    (
      ap (λ w. w.db.team_leaders) (sym same),
      ap (λ w. w.db.team_members) (sym same) ∙ sym (append_nil w.db.team_members),
    )
insert_members-ok team (id ∷ ids) w w' e =
    let (_, w1, e1, k1) = bind-ok _ _ w w' e in
    let (l1, m1) = one_member team id w.db w1.db (exec-ok _ w w1 (wrap-ok _ _ w w1 e1)) in
    let (l2, m2) = insert_members-ok team ids w1 w' k1 in
    (
      l2 ∙ l1,
      m2
          ∙ ap (λ l. l ++ links team ids) m1
          ∙ append_assoc w.db.team_members ((team, id) ∷ []) (links team ids),
    )

abbrev others : String → List Link → List Link
others team ls = keep (λ l. not (l.0 == team)) ls

cleared_leaders :
    (team : String) (d d' : Db)
    → clear_leaders team d ≡ some d'
    → Tables d' (others team d.team_leaders) d.team_members
cleared_leaders team d d' e = ground arith

cleared_members :
    (team : String) (d d' : Db)
    → clear_members team d ≡ some d'
    → Tables d' d.team_leaders (others team d.team_members)
cleared_members team d d' e = ground arith

upserted :
    (row : TeamRow) (d d' : Db)
    → upsert_team row d ≡ some d'
    → Tables d' d.team_leaders d.team_members
upserted row d d' e = ground arith

save_statements-ok :
    (team : Team) (w w' : World)
    → save_statements team w ≡ (ok tt, w')
    → Tables w'.db
        (others team.id w.db.team_leaders ++ links team.id team.leader_ids)
        (others team.id w.db.team_members ++ links team.id team.member_ids)
unfolding save_statements
save_statements-ok team w w' e =
    let (_, w1, e1, k1) = bind-ok _ _ w w' e in
    let (_, w2, e2, k2) = bind-ok _ _ w1 w' k1 in
    let (_, w3, e3, k3) = bind-ok _ _ w2 w' k2 in
    let (_, w4, e4, e5) = bind-ok _ _ w3 w' k3 in
    let (l1, m1) = upserted _ w.db w1.db (exec-ok _ w w1 (wrap-ok _ _ w w1 e1)) in
    let (l2, m2) = cleared_leaders team.id w1.db w2.db (exec-ok _ w1 w2 (wrap-ok _ _ w1 w2 e2)) in
    let (l3, m3) = insert_leaders-ok team.id team.leader_ids w2 w3 e3 in
    let (l4, m4) = cleared_members team.id w3.db w4.db (exec-ok _ w3 w4 (wrap-ok _ _ w3 w4 e4)) in
    let (l5, m5) = insert_members-ok team.id team.member_ids w4 w' e5 in
    (
      l5 ∙ l4 ∙ l3 ∙ ap (λ l. l ++ links team.id team.leader_ids) (l2 ∙ ap (others team.id) l1),
      m5 ∙ ap (λ l. l ++ links team.id team.member_ids) (m4 ∙ ap (others team.id) (m3 ∙ m2 ∙ m1)),
    )

pub linked-append :
    (t : String) (xs ys : List Link) → linked t (xs ++ ys) ≡ linked t xs ++ linked t ys
linked-append t [] ys = refl
linked-append t (x ∷ xs) ys = ground (arith, linked-append t xs ys)

linked-others :
    (t team : String) (ls : List Link)
    → linked t (others team ls) ≡ (if t == team then [] else linked t ls)
linked-others t team [] = ground arith
linked-others t team ((a, b) ∷ ls) =
    ground (arith, linked-others t team ls, eq_iff a team, eq_iff a t, eq_iff t team)

pub linked-links :
    (t team : String) (ids : List String)
    → linked t (links team ids) ≡ (if t == team then ids else [])
linked-links t team [] = ground arith
linked-links t team (id ∷ ids) =
    ground (arith, linked-links t team ids, eq_iff team t, eq_iff t team)

linked-saved :
    (t team : String) (ids : List String) (ls : List Link)
    → linked t (others team ls ++ links team ids) ≡ (if t == team then ids else linked t ls)
linked-saved t team ids ls =
    linked-append t (others team ls) (links team ids)
    ∙ ap (λ l. l ++ linked t (links team ids)) (linked-others t team ls)
    ∙ ap (λ l. (if t == team then [] else linked t ls) ++ l) (linked-links t team ids)
    ∙ by_team (t == team)
  where
    by_team :
        (b : Bool)
        → (if b then [] else linked t ls) ++ (if b then ids else [])
          ≡ (if b then ids else linked t ls)
    by_team true = refl
    by_team false = append_nil (linked t ls)

-- A transaction that succeeds ran its statements, one that fails changes nothing.
abbrev Ran : Sql (Unit {0}) → World → Db → Type 0
Ran body w d = (w1 : World) × (w2 : World) × (w1.db ≡ w.db) × (body w1 ≡ (ok tt, w2)) × (d ≡ w2.db)

committed-Ran :
    (text : String) (body : Sql (Unit {0})) (w w' : World)
    → committed text body w ≡ (ok tt, w')
    → Ran body w w'.db
committed-Ran text body w w' e =
    let (_, w2, first, last) = bind-ok _ _ w w' e in
    let (_, w1, begun, ran) = bind-ok _ _ w w2 first in
    (
      w1,
      w2,
      sym (eq_of_some (exec-ok _ w w1 (wrap-ok text _ w w1 begun))),
      ran,
      sym (eq_of_some (exec-ok _ w2 w' last)),
    )

restored-cases :
    (d : Db) (body : Sql (Unit {0})) (w : World) (p : Result (Unit {0}) × World)
    → ((w' : World) → p ≡ (ok tt, w') → Ran body w w'.db)
    → (((restored d p).0 ≡ ok tt) × Ran body w (restored d p).1.db)
      ⊎ ((text : String) × ((restored d p).0 ≡ err text) × ((restored d p).1.db ≡ d))
restored-cases d body w (ok tt, w') h = inl (refl, h w' refl)
restored-cases d body w (err e, w') h = inr (e, refl, refl)

pub transaction-cases :
    (text : String) (body : Sql (Unit {0})) (w : World)
    → (((transaction text body w).0 ≡ ok tt) × Ran body w (transaction text body w).1.db)
      ⊎ ((e : String) × ((transaction text body w).0 ≡ err e)
          × ((transaction text body w).1.db ≡ w.db))
unfolding transaction
transaction-cases text body w =
    restored-cases w.db body w (committed text body w) (committed-Ran text body w)

-- `Save` either fails and leaves the database as it is, or succeeds, and then the leaders and the
-- members that the database has for the team are those given, in their order, and those of every
-- other team are as before.
pub save-cases :
    (team : Team) (t : String) (w : World)
    → ((e : String) × ((save team w).0 ≡ err e) × ((save team w).1.db ≡ w.db))
      ⊎ (((save team w).0 ≡ ok tt)
          × (linked t (save team w).1.db.team_leaders
              ≡ (if t == team.id then team.leader_ids else linked t w.db.team_leaders))
          × (linked t (save team w).1.db.team_members
              ≡ (if t == team.id then team.member_ids else linked t w.db.team_members)))
unfolding save
save-cases team t w = elim (transaction-cases "begin tx: " (save_statements team) w) [
  | inr failed ↦ inl failed
  | inl (success, (w1, w2, before, ran, after)) ↦
      let (l, m) = save_statements-ok team w1 w2 ran in
      inr (
        success,
        ap (λ d. linked t d.team_leaders) after
            ∙ ap (linked t) l
            ∙ linked-saved t team.id team.leader_ids w1.db.team_leaders
            ∙ ap (λ d. if t == team.id then team.leader_ids else linked t d.team_leaders) before,
        ap (λ d. linked t d.team_members) after
            ∙ ap (linked t) m
            ∙ linked-saved t team.id team.member_ids w1.db.team_members
            ∙ ap (λ d. if t == team.id then team.member_ids else linked t d.team_members) before,
      )
]
