-- ===== src/Canvas/Export/Fonts/Settle.antt =====
-- What an answer changes in the search for the font rules, and what holds at every moment of it.
use mathlib.Core.List.{append-nil}
use adivento.Base.{
  true, false, ◌||◌, ◌≡◌, refl, ap, sym, Option, none, some, List, [], ◌∷◌, ◌++◌, map, ===_iff,
  includes, nat_eq, list_eq, Text, arith, ◌≤◌, count, inl, inr, Option-cases,
}
use adivento.Base.Counts.{includes-append, count-append, includes-count}
use adivento.Canvas.Export.Fonts.{
  FontRule, Crawl, push_rules, scrape_css, scrape_imports, scrape_text, settle, skip_settled,
  in_flight, font_faces, imports,
}
use adivento.Canvas.Export.Fonts.Scrape.{
  scrape_all, seen-scrape_all, IsAsked, IsLive, IsAsked-scrape_all, IsLive-scrape_all,
  skip_settled-keeps, skip_settled-within, skip_settled-head, rules-scrape_all, settled-scrape_all,
}

-- What holds at every moment: an address that was asked for is answered or among the promises that
-- are left; these and the answered ones were asked for, the answered ones once; and the promise
-- that the loop awaits has no answer.
pub record Inv (c : Crawl) : Type 0 where
  pub asked : (u : Text) → IsAsked u c
  pub live : (u : Text) → IsLive u c
  pub answered : (u : Text) → includes c.settled u ≡ true → includes c.seen u ≡ true
  pub once : (u : Text) → count u c.settled ≤ 1
  pub head : (u : Text) (rest : List Text) → c.pending ≡ u ∷ rest → includes c.settled u ≡ false

-- The font faces that a text at an address declares.
abbrev pub faces_of : Text → Option Text → List FontRule
faces_of href none = []
faces_of href (some css) = map (λ m. record { css = m; base = href }) (font_faces css)

module _ (fetch : Text → Option Text) (resolve : Text → Text → Option Text) where
  -- The addresses that these names stand for, up to the first one that is not valid.
  abbrev pub valid : Text → List Text → List Text
  valid href [] = []
  valid href (m ∷ ms) =
      let rest = valid href ms in elim (resolve m href) [ none ↦ [] | some u ↦ u ∷ rest ]

  abbrev pub imported_of : Text → Option Text → List Text
  imported_of href none = []
  imported_of href (some css) = valid href (imports css)

  -- The addresses that the text at an address imports, and the font faces it declares.
  abbrev pub imported : Text → List Text
  imported u = imported_of u (fetch u)

  abbrev pub faces : Text → List FontRule
  faces u = faces_of u (fetch u)

  scrape_imports_lem :
      (href : Text) (ms : List Text) (c : Crawl)
      → scrape_imports fetch resolve href ms c ≡ scrape_all (valid href ms) c
  unfolding scrape_imports scrape_all
  scrape_imports_lem href [] c = refl
  scrape_imports_lem href (m ∷ ms) c = elim (Option-cases (resolve m href)) [
    | inl e ↦ rw (e, scrape_imports, valid) refl
    | inr (u, e) ↦ rw (e, scrape_imports, valid) (scrape_imports_lem href ms (scrape_css u c))
  ]

  scrape_text_lem :
      (href : Text) (o : Option Text) (c : Crawl)
      → scrape_text fetch resolve href o c
        ≡ scrape_all (imported_of href o) (push_rules (faces_of href o) c)
  unfolding scrape_text push_rules scrape_all
  scrape_text_lem href none c = ap (λ rs. record c { rules = rs }) (sym (append-nil c.rules))
  scrape_text_lem href (some css) c = scrape_imports_lem href (imports css) _

  -- The moment after a text was searched: what it imports was asked for.
  abbrev searched : Text → Crawl → Crawl
  searched u c = scrape_all (imported u) (push_rules (faces u) c)

  abbrev answer : Text → Crawl → Crawl
  answer u d =
      let done = d.settled ++ u ∷ [] in
      record d { settled = done; pending = skip_settled done d.pending }

  settle_lem : (u : Text) (c : Crawl) → settle fetch resolve u c ≡ answer u (searched u c)
  unfolding settle
  settle_lem u c = ap (answer u) (scrape_text_lem u (fetch u) c)

  pub rules-settle : (u : Text) (c : Crawl) → (settle fetch resolve u c).rules ≡ c.rules ++ faces u
  unfolding push_rules
  rules-settle u c = rw (settle_lem u c) (rules-scrape_all (imported u) (push_rules (faces u) c))

  pub settled-settle :
      (u : Text) (c : Crawl) → (settle fetch resolve u c).settled ≡ c.settled ++ u ∷ []
  unfolding push_rules
  settled-settle u c =
      rw (settle_lem u c)
        (ap (λ s. s ++ u ∷ []) (settled-scrape_all (imported u) (push_rules (faces u) c)))

  pub seen-settle :
      (u v : Text) (c : Crawl)
      → includes (settle fetch resolve u c).seen v ≡ (includes (imported u) v || includes c.seen v)
  unfolding push_rules
  seen-settle u v c = rw (settle_lem u c) (seen-scrape_all v (imported u) (push_rules (faces u) c))

  Inv-answer :
      (u : Text) (c d : Crawl)
      → d.settled ≡ c.settled
      → includes c.settled u ≡ false
      → includes d.seen u ≡ true
      → Inv c
      → ((v : Text) → includes c.seen v ≡ true → includes d.seen v ≡ true)
      → ((v : Text) → IsAsked v d)
      → ((v : Text) → IsLive v d)
      → Inv (answer u d)
  Inv-answer u c d e new known inv more ask live =
      let done = d.settled ++ u ∷ [] in
      let split = λ (v : Text). includes-append v d.settled (u ∷ []) in
      record {
        asked = λ v s n. ground (arith, ask v, split v, skip_settled-keeps v done d.pending);
        live = λ v p. live v (skip_settled-within v done d.pending p);
        answered = λ v s.
            ground (arith, split v, ===_iff u v, inv.answered v, more v, ap (λ x. includes x v) e);
        once = λ v. ground (
          arith,
          count-append v d.settled (u ∷ []),
          inv.once v,
          ===_iff u v,
          includes-count v c.settled,
          ap (count v) e,
        );
        head = λ v rest h. skip_settled-head v done d.pending rest h;
      }

  pub Inv-settle :
      (u : Text) (c : Crawl)
      → Inv c
      → in_flight fetch resolve c u ≡ true
      → Inv (settle fetch resolve u c)
  unfolding in_flight push_rules
  Inv-settle u c inv fly =
      let asks = imported u in
      let c1 = push_rules (faces u) c in
      let seen = λ (v : Text). seen-scrape_all v asks c1 in
      rw (settle_lem u c) (
        Inv-answer u c (searched u c) (settled-scrape_all asks c1) (ground arith)
          (ground (arith, seen u)) inv (λ v s. ground (arith, seen v))
          (λ v. IsAsked-scrape_all v asks c1 (inv.asked v))
          (λ v. IsLive-scrape_all v asks c1 (inv.live v)))
