-- ===== src/Platforms/Client/Paging.antt =====
-- When the loop of `GetAll` ends, and with which pages.
use contribution_tracker.Prelude.{
  ℕ, zero, suc, String, ◌≡◌, refl, ◌≤◌, ◌↔◌, true, false, List, [], ◌∷◌, ◌==◌, length, arith,
  eq_iff, Bool-cases, inl, inr, sym,
}
use mathlib.Core.Path.{subst, subst₂}
use contribution_tracker.Report.Outcomes.{Outcome, value, error, crashed, unfinished, ◌>>=◌}
use contribution_tracker.Platforms.Http.{HttpReply, Network, Formats}
use contribution_tracker.Platforms.Client.{requested, get_pages}

module _ (lib : Formats) (net : Network) (headers : List (String × String))
    (next : String → HttpReply → String) where
  -- The pages that the links lead to, up to a page with no next one.
  pub data Chain : String → List String → Type 0 where
    ended : Chain "" []
    page :
        (url : String) (r : HttpReply) (pages : List String)
        → (url == "") ≡ false
        → requested lib net headers url ≡ value r
        → Chain (next url r) pages
        → Chain url (r.body ∷ pages)

  pub Chain-get_pages :
      (n : ℕ) (url : String) (pages : List String)
      → Chain url pages
      → length pages ≤ n
      → get_pages lib net headers next n url ≡ value pages
  unfolding get_pages
  Chain-get_pages zero _ _ ended h = refl
  Chain-get_pages (suc n) _ _ ended h = refl
  Chain-get_pages zero _ _ (page url r pages named reply rest) h = ground arith
  Chain-get_pages (suc n) _ _ (page url r pages named reply rest) h =
      rw (named, reply, Chain-get_pages n (next url r) pages rest (ground arith))

  -- One round of the loop that ends with a value.
  first_page :
      (n : ℕ) (url : String) (o : Outcome HttpReply) (pages : List String)
      → requested lib net headers url ≡ o
      → (o >>= λ r. get_pages lib net headers next n (next url r) >>= λ ps. value (r.body ∷ ps))
        ≡ value pages
      → (r : HttpReply) × (ps : List String) × (requested lib net headers url ≡ value r)
        × (get_pages lib net headers next n (next url r) ≡ value ps)
        × (pages ≡ r.body ∷ ps)
  first_page n url (value r) pages reply e =
      let (ps, rest, same) = later (get_pages lib net headers next n (next url r)) e in
      (r, ps, reply, rest, same)
    where
      later :
          (o : Outcome (List String))
          → (o >>= λ ps. value (r.body ∷ ps)) ≡ value pages
          → (ps : List String) × (o ≡ value ps) × (pages ≡ r.body ∷ ps)
      later (value ps) e = (ps, refl, cc)
      later (error _) e = cc
      later crashed e = cc
      later unfinished e = cc
  first_page n url (error _) pages reply e = cc
  first_page n url crashed pages reply e = cc
  first_page n url unfinished pages reply e = cc

  empty_url : (url : String) → (url == "") ≡ true → url ≡ ""
  empty_url url e = (eq_iff url "").0 e

  get_pages-Chain :
      (n : ℕ) (url : String) (pages : List String)
      → get_pages lib net headers next n url ≡ value pages
      → Chain url pages × (length pages ≤ n)
  unfolding get_pages
  get_pages-Chain zero url pages e = elim (Bool-cases (url == "")) [
    | inl empty ↦
        let none_left : pages ≡ [] = ground (arith, empty, e) in
        (subst₂ Chain (sym (empty_url url empty)) (sym none_left) ended, rw none_left (omega arith))
    | inr named ↦ ground (arith, named, e)
  ]
  get_pages-Chain (suc n) url pages e = elim (Bool-cases (url == "")) [
    | inl empty ↦
        let none_left : pages ≡ [] = ground (arith, empty, e) in
        (subst₂ Chain (sym (empty_url url empty)) (sym none_left) ended, rw none_left (omega arith))
    | inr named ↦
        let (r, ps, reply, rest, same) =
          first_page n url (requested lib net headers url) pages refl (rw named at e) in
        let (chain, short) = get_pages-Chain n (next url r) ps rest in
        (
          subst (Chain url) (sym same) (page url r ps named reply chain),
          rw same (omega (arith, short)),
        )
  ]

  -- With as many rounds as there are pages, or more, the loop ends with the pages that the links lead
  -- to; and pages that it ends with are those, and no more than the rounds.
  pub get_pages_iff :
      (n : ℕ) (url : String) (pages : List String)
      → (get_pages lib net headers next n url ≡ value pages)
        ↔ (Chain url pages × (length pages ≤ n))
  get_pages_iff n url pages =
      (get_pages-Chain n url pages, λ c. Chain-get_pages n url pages c.0 c.1)

  -- Where each page of a set has its next page in the set, the loop ends after no number of rounds.
  pub get_pages_endless :
      (S : String → Type 0)
      → ((url : String)
          → S url
          → ((url == "") ≡ false)
            × ((r : HttpReply) × (requested lib net headers url ≡ value r) × S (next url r)))
      → (n : ℕ) (url : String) → S url
      → get_pages lib net headers next n url ≡ unfinished
  unfolding get_pages
  get_pages_endless S closed zero url here = rw (closed url here).0
  get_pages_endless S closed (suc n) url here =
      let (named, (r, reply, later)) = closed url here in
      rw (named, reply, get_pages_endless S closed n (next url r) later)
