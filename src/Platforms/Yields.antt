-- ===== src/Platforms/Yields.antt =====
-- What holds of every element of a list that a call of a fetcher gives, one rule for each way to build
-- such a call.
use contribution_tracker.Prelude.{
  String, ◌≡◌, refl, Bool, true, false, List, [], ◌∷◌, ◌++◌, All, All-append, keep, map,
  if◌then◌else◌,
}
use mathlib.Core.Path.{subst}
use contribution_tracker.Report.Outcomes.{Outcome, value, error, crashed, unfinished, about, ◌>>=◌}
use contribution_tracker.Platforms.Sets.{if_asked, then_also, gathered}

-- If `m` ends with a list, `P` holds of its elements.
pub record Yields (B : Type 0) (P : B → Type 0) (m : Outcome (List B)) : Type 0 where
  pub all : (xs : List B) → m ≡ value xs → All P xs

abbrev pub Holds : {B : Type 0} → (B → Type 0) → Outcome (List B) → Type 0
Holds P (value xs) = All P xs
Holds P (error _) = Unit
Holds P crashed = Unit
Holds P unfinished = Unit

module _ {B : Type 0} (P : B → Type 0) where
  -- The same, said by cases.
  pub of_Holds : (m : Outcome (List B)) → Holds P m → Yields B P m
  of_Holds (value ys) h = record { all = λ xs e. subst (Holds P) e h }
  of_Holds (error _) h = record { all = λ xs e. cc }
  of_Holds crashed h = record { all = λ xs e. cc }
  of_Holds unfinished h = record { all = λ xs e. cc }

  pub to_Holds : (m : Outcome (List B)) → Yields B P m → Holds P m
  to_Holds (value ys) y = y.all ys refl
  to_Holds (error _) y = tt
  to_Holds crashed y = tt
  to_Holds unfinished y = tt

  pub Yields-value : (xs : List B) → All P xs → Yields B P (value xs)
  Yields-value xs h = of_Holds (value xs) h

  pub Yields-bind :
      {A : Type 0} (m : Outcome A) (f : A → Outcome (List B))
      → ((a : A) → Yields B P (f a))
      → Yields B P (m >>= f)
  Yields-bind (value a) f y = y a
  Yields-bind (error e) f y = of_Holds (error e) tt
  Yields-bind crashed f y = of_Holds crashed tt
  Yields-bind unfinished f y = of_Holds unfinished tt

  pub Yields-then_also :
      (m n : Outcome (List B)) → Yields B P m → Yields B P n → Yields B P (then_also m n)
  Yields-then_also (value xs) (value ys) y z =
      Yields-value (xs ++ ys) (All-append P xs ys (y.all xs refl) (z.all ys refl))
  Yields-then_also (value xs) (error e) y z = of_Holds (error e) tt
  Yields-then_also (value xs) crashed y z = of_Holds crashed tt
  Yields-then_also (value xs) unfinished y z = of_Holds unfinished tt
  Yields-then_also (error e) n y z = of_Holds (error e) tt
  Yields-then_also crashed n y z = of_Holds crashed tt
  Yields-then_also unfinished n y z = of_Holds unfinished tt

  pub Yields-gathered :
      {A : Type 0} (f : A → Outcome (List B)) (xs : List A)
      → ((a : A) → Yields B P (f a))
      → Yields B P (gathered f xs)
  Yields-gathered f [] y = Yields-value [] tt
  Yields-gathered f (x ∷ xs) y =
      Yields-then_also (f x) (gathered f xs) (y x) (Yields-gathered f xs y)

  pub Yields-about :
      (text : String) (m : Outcome (List B)) → Yields B P m → Yields B P (about text m)
  Yields-about text (value xs) y = y
  Yields-about text (error e) y = of_Holds (about text (error e)) tt
  Yields-about text crashed y = y
  Yields-about text unfinished y = y

  -- What was asked for may be used.
  pub Yields-if_asked :
      (asked : Bool) (text : String) (m : Outcome (List B))
      → (asked ≡ true → Yields B P m)
      → Yields B P (if_asked asked text m)
  Yields-if_asked true text m y = Yields-about text m (y refl)
  Yields-if_asked false text m y = Yields-value [] tt

  pub All-map : {A : Type 0} (f : A → B) (xs : List A) → ((a : A) → P (f a)) → All P (map f xs)
  All-map f [] h = tt
  All-map f (x ∷ xs) h = (h x, All-map f xs h)

  pub All-map_keep :
      {A : Type 0} (f : A → B) (p : A → Bool) (xs : List A)
      → ((a : A) → p a ≡ true → P (f a))
      → All P (map f (keep p xs))
  All-map_keep f p [] h = tt
  All-map_keep f p (x ∷ xs) h = kept (p x) (h x) (All-map_keep f p xs h)
    where
      kept :
          (b : Bool)
          → (b ≡ true → P (f x))
          → All P (map f (keep p xs))
          → All P (map f (if b then x ∷ keep p xs else keep p xs))
      kept true h rest = (h refl, rest)
      kept false h rest = rest

pub ruleset yields_rules =
    (Yields-bind, Yields-then_also, Yields-gathered, Yields-about, Yields-if_asked, Yields-value)
