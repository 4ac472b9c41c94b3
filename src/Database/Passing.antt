-- ===== src/Database/Passing.antt =====
-- Statements that succeed where no statement meets an outage, and loops of insertions that the
-- constraints of a table accept.
use contribution_tracker.Prelude.{
  String, ◌≡◌, refl, sym, ap, ◌∙◌, ◌||◌, Bool, true, false, Option, some, List, [], ◌∷◌, ◌++◌, All,
  any, map, append_assoc, append_nil, arith,
}
use mathlib.Core.Path.{subst}
use contribution_tracker.Database.Schema.{Db}
use contribution_tracker.Database.Session.{ok, Sql, continue, pure, wrap, exec, ◌>>=◌, ◌>>◌}
use contribution_tracker.Database.Calm.{calm}
use contribution_tracker.Database.Backups.{each}

-- From one database the statements succeed and leave the other.
pub record Passes (m : Sql (Unit {0})) (d d' : Db) : Type 0 where
  pub at :
      (refusal no_rows : String) → m (calm d refusal no_rows) ≡ (ok tt, calm d' refusal no_rows)

pub Passes-exec : (g : Db → Option Db) (d d' : Db) → g d ≡ some d' → Passes (exec g) d d'
unfolding exec
Passes-exec g d d' e = record { at = λ refusal no_rows. rw e refl }

pub Passes-wrap :
    (text : String) (m : Sql (Unit {0})) (d d' : Db) → Passes m d d' → Passes (wrap text m) d d'
unfolding wrap
Passes-wrap text m d d' p = record { at = λ refusal no_rows. rw (p.at refusal no_rows) refl }

pub Passes-pure : (d : Db) → Passes (pure tt) d d
unfolding pure
Passes-pure d = record { at = λ refusal no_rows. refl }

pub Passes-then :
    (m n : Sql (Unit {0})) (d d1 d2 : Db) → Passes m d d1 → Passes n d1 d2 → Passes (m >> n) d d2
unfolding ◌>>=◌
Passes-then m n d d1 d2 p q = record {
  at = λ refusal no_rows.
      ap (λ r. continue r.0 (λ _. n) r.1) (p.at refusal no_rows) ∙ q.at refusal no_rows;
}

-- No row of a table clashes with a later one.
abbrev pub Unique : {R : Type 0} → (R → R → Bool) → List R → Type 0
Unique clash [] = Unit
Unique clash (r ∷ rs) = All (λ s. clash s r ≡ false) rs × Unique clash rs

module _ {R : Type 0} (clash : R → R → Bool) where
  All-middle : (P : R → Type 0) (xs : List R) (y : R) (ys : List R) → All P (xs ++ y ∷ ys) → P y
  All-middle P [] y ys h = h.0
  All-middle P (x ∷ xs) y ys h = All-middle P xs y ys h.1

  -- A row clashes with none of those before it.
  pub Unique-fresh :
      (xs : List R) (y : R) (ys : List R) → Unique clash (xs ++ y ∷ ys) → any (clash y) xs ≡ false
  Unique-fresh [] y ys h = refl
  Unique-fresh (x ∷ xs) y ys h =
      both (clash y x) (any (clash y) xs) (All-middle (λ s. clash s x ≡ false) xs y ys h.0)
        (Unique-fresh xs y ys h.1)
    where
      both : (a b : Bool) → a ≡ false → b ≡ false → (a || b) ≡ false
      both a b e f = ground arith

-- Insertions into one table, which `put` writes and `rows` reads; `refers` are its foreign keys.
module _ {A R : Type 0} (rows : Db → List R) (put : List R → Db → Db) (row : A → R)
    (clash : R → R → Bool) (refers : R → Db → Bool)
    (read : (l : List R) (d : Db) → rows (put l d) ≡ l)
    (twice : (l k : List R) (d : Db) → put l (put k d) ≡ put l d)
    (same : (d : Db) → put (rows d) d ≡ d)
    (stable : (r : R) (l : List R) (d : Db) → refers r (put l d) ≡ refers r d) where
  All-stable :
      (l : List R) (d : Db) (xs : List A)
      → All (λ x. refers (row x) d ≡ true) xs
      → All (λ x. refers (row x) (put l d) ≡ true) xs
  All-stable l d [] h = tt
  All-stable l d (x ∷ xs) (h, hs) = (stable (row x) l d ∙ h, All-stable l d xs hs)

  pub inserted-Passes :
      (text : A → String) (insert : R → Db → Option Db)
      → ((r : R) (d : Db)
          → any (clash r) (rows d) ≡ false
          → refers r d ≡ true
          → insert r d ≡ some (put (rows d ++ r ∷ []) d))
      → (xs : List A) (rest : List R) (d : Db) → Unique clash (rows d ++ (map row xs ++ rest))
      → All (λ x. refers (row x) d ≡ true) xs
      → Passes
          (each (λ x. wrap (text x) (exec (insert (row x)))) xs)
          d
          (put (rows d ++ map row xs) d)
  inserted-Passes text insert accept [] rest d unique h =
      subst (Passes (pure tt) d) (sym (ap (λ l. put l d) (append_nil (rows d)) ∙ same d))
        (Passes-pure d)
  inserted-Passes text insert accept (x ∷ xs) rest d unique (h, hs) =
      Passes-then (wrap (text x) (exec (insert (row x)))) _ d (put (rows d ++ row x ∷ []) d) _
        (Passes-wrap (text x) (exec (insert (row x))) d _ (
          Passes-exec (insert (row x)) d _
            (accept (row x) d (Unique-fresh clash (rows d) (row x) (map row xs ++ rest) unique) h)))
        (subst
          (Passes (each (λ x. wrap (text x) (exec (insert (row x)))) xs)
            (put (rows d ++ row x ∷ []) d))
          closed
          (inserted-Passes text insert accept xs rest (put (rows d ++ row x ∷ []) d)
            (subst (Unique clash) (sym longer) unique) (All-stable (rows d ++ row x ∷ []) d xs hs)))
    where
      closed :
          put (rows (put (rows d ++ row x ∷ []) d) ++ map row xs) (put (rows d ++ row x ∷ []) d)
          ≡ put (rows d ++ row x ∷ map row xs) d
      closed =
          twice (rows (put (rows d ++ row x ∷ []) d) ++ map row xs) (rows d ++ row x ∷ []) d
          ∙ ap (λ l. put (l ++ map row xs) d) (read (rows d ++ row x ∷ []) d)
          ∙ ap (λ l. put l d) (append_assoc (rows d) (row x ∷ []) (map row xs))

      longer :
          rows (put (rows d ++ row x ∷ []) d) ++ (map row xs ++ rest)
          ≡ rows d ++ row x ∷ (map row xs ++ rest)
      longer =
          ap (λ l. l ++ (map row xs ++ rest)) (read (rows d ++ row x ∷ []) d)
          ∙ append_assoc (rows d) (row x ∷ []) (map row xs ++ rest)
