-- ===== src/Canvas/Export/Fonts/Sheets.antt =====
-- The walk over the style sheets of a page: what it lists and what it asks for.
use mathlib.Core.List.{append-nil, append_assoc}
use adivento.Base.{
  Bool, ◌||◌, ◌≡◌, refl, ap, sym, ◌∙◌, Option, none, some, List, [], ◌∷◌, ◌++◌, includes, count,
  nat_eq, list_eq, Text, arith,
}
use adivento.Base.Counts.{includes-append}
use adivento.Canvas.Export.Fonts.{
  FontRule, Crawl, blank, push_rules, scrape_css, Rule, Contents, Rules, font_face, import_missing,
  import_rule, group, plain, closed, opened, nil, cons, Sheet, href_or, walk, walk_rule,
  scrape_sheet, read_sheet, collect,
}
use adivento.Canvas.Export.Fonts.Scrape.{
  seen-scrape_css, IsAsked, IsLive, IsAsked-scrape_css, IsLive-scrape_css, rules-scrape_css,
  settled-scrape_css,
}
use adivento.Canvas.Export.Fonts.Settle.{Inv}

-- The font rules of the sheets that can be read, each with the address of its own sheet.
abbrev mutual
  pub listed : Rules → Text → List FontRule
  listed nil base = []
  listed (cons r rs) base = listed_in r base ++ listed rs base

  pub listed_in : Rule → Text → List FontRule
  listed_in (font_face css) base = record { css = css; base = base } ∷ []
  listed_in import_missing base = []
  listed_in (import_rule href closed) base = []
  listed_in (import_rule href (opened rs)) base = listed rs (href_or href base)
  listed_in (group rs) base = listed rs base
  listed_in plain base = []

-- The addresses of the sheets that cannot be read.
abbrev mutual
  pub unread : Rules → Text → List Text
  unread nil base = []
  unread (cons r rs) base = unread_in r base ++ unread rs base

  pub unread_in : Rule → Text → List Text
  unread_in (font_face css) base = []
  unread_in import_missing base = []
  unread_in (import_rule href closed) base = href_or href base ∷ []
  unread_in (import_rule href (opened rs)) base = unread rs (href_or href base)
  unread_in (group rs) base = unread rs base
  unread_in plain base = []

mutual
  unfolding walk push_rules

  rules-walk :
      (rs : Rules) (base : Text) (c : Crawl) → (walk rs base c).rules ≡ c.rules ++ listed rs base
  rules-walk nil base c = sym (append-nil c.rules)
  rules-walk (cons r rs) base c =
      rules-walk rs base (walk_rule r base c)
      ∙ ap (λ xs. xs ++ listed rs base) (rules-walk_rule r base c)
      ∙ append_assoc c.rules (listed_in r base) (listed rs base)

  rules-walk_rule :
      (r : Rule) (base : Text) (c : Crawl)
      → (walk_rule r base c).rules ≡ c.rules ++ listed_in r base
  rules-walk_rule (font_face css) base c = refl
  rules-walk_rule import_missing base c = sym (append-nil c.rules)
  rules-walk_rule (import_rule href closed) base c =
      rules-scrape_css (href_or href base) c ∙ sym (append-nil c.rules)
  rules-walk_rule (import_rule href (opened rs)) base c = rules-walk rs (href_or href base) c
  rules-walk_rule (group rs) base c = rules-walk rs base c
  rules-walk_rule plain base c = sym (append-nil c.rules)

-- Two steps that each ask for more, taken together.
or_trans :
    (a b c : Bool) {x y ab : Bool} → x ≡ (a || y) → y ≡ (b || c) → ab ≡ (b || a) → x ≡ (ab || c)
or_trans a b c e f g = e ∙ ground (arith, f, g)

mutual
  unfolding walk push_rules

  seen-walk :
      (u : Text) (rs : Rules) (base : Text) (c : Crawl)
      → includes (walk rs base c).seen u ≡ (includes (unread rs base) u || includes c.seen u)
  seen-walk u nil base c = refl
  seen-walk u (cons r rs) base c =
      or_trans _ _ _ (seen-walk u rs base (walk_rule r base c)) (seen-walk_rule u r base c)
        (includes-append u (unread_in r base) (unread rs base))

  seen-walk_rule :
      (u : Text) (r : Rule) (base : Text) (c : Crawl)
      → includes (walk_rule r base c).seen u ≡ (includes (unread_in r base) u || includes c.seen u)
  seen-walk_rule u (font_face css) base c = refl
  seen-walk_rule u import_missing base c = refl
  seen-walk_rule u (import_rule href closed) base c =
      ground (arith, seen-scrape_css u (href_or href base) c)
  seen-walk_rule u (import_rule href (opened rs)) base c = seen-walk u rs (href_or href base) c
  seen-walk_rule u (group rs) base c = seen-walk u rs base c
  seen-walk_rule u plain base c = refl

-- What both kinds of step keep, the walk keeps.
module _ {ℓ} (P : Crawl → Type ℓ)
    (pushes : (rs : List FontRule) (c : Crawl) → P c → P (push_rules rs c))
    (scrapes : (u : Text) (c : Crawl) → P c → P (scrape_css u c)) where
  mutual
    unfolding walk

    walk_keeps : (rs : Rules) (base : Text) (c : Crawl) → P c → P (walk rs base c)
    walk_keeps nil base c h = h
    walk_keeps (cons r rs) base c h =
        walk_keeps rs base (walk_rule r base c) (walk_rule_keeps r base c h)

    walk_rule_keeps : (r : Rule) (base : Text) (c : Crawl) → P c → P (walk_rule r base c)
    walk_rule_keeps (font_face css) base c h = pushes _ c h
    walk_rule_keeps import_missing base c h = h
    walk_rule_keeps (import_rule href closed) base c h = scrapes _ c h
    walk_rule_keeps (import_rule href (opened rs)) base c h = walk_keeps rs (href_or href base) c h
    walk_rule_keeps (group rs) base c h = walk_keeps rs base c h
    walk_rule_keeps plain base c h = h

  scrape_sheet_keeps : (href : Option Text) (c : Crawl) → P c → P (scrape_sheet href c)
  unfolding scrape_sheet
  scrape_sheet_keeps none c h = h
  scrape_sheet_keeps (some []) c h = h
  scrape_sheet_keeps (some (x ∷ xs)) c h = scrapes _ c h

  read_sheet_keeps :
      (location : Text) (href : Option Text) (contents : Contents) (c : Crawl)
      → P c
      → P (read_sheet location href contents c)
  unfolding read_sheet
  read_sheet_keeps location href closed c h = scrape_sheet_keeps href c h
  read_sheet_keeps location href (opened rs) c h = walk_keeps rs (href_or href location) c h

  pub collect_keeps :
      (location : Text) (ss : List Sheet) (c : Crawl) → P c → P (collect location ss c)
  unfolding collect
  collect_keeps location [] c h = h
  collect_keeps location (s ∷ ss) c h =
      collect_keeps location ss (read_sheet location s.href s.contents c)
        (read_sheet_keeps location s.href s.contents c h)

-- The same over a list of style sheets: one without an address stands at that of the page.
abbrev pub listed_sheet : Text → Option Text → Contents → List FontRule
listed_sheet location href closed = []
listed_sheet location href (opened rs) = listed rs (href_or href location)

abbrev pub unread_sheet : Text → Option Text → Contents → List Text
unread_sheet location none closed = []
unread_sheet location (some []) closed = []
unread_sheet location (some (x ∷ xs)) closed = (x ∷ xs) ∷ []
unread_sheet location href (opened rs) = unread rs (href_or href location)

abbrev pub listed_sheets : Text → List Sheet → List FontRule
listed_sheets location [] = []
listed_sheets location (s ∷ ss) =
    listed_sheet location s.href s.contents ++ listed_sheets location ss

abbrev pub unread_sheets : Text → List Sheet → List Text
unread_sheets location [] = []
unread_sheets location (s ∷ ss) =
    unread_sheet location s.href s.contents ++ unread_sheets location ss

rules-read_sheet :
    (location : Text) (href : Option Text) (contents : Contents) (c : Crawl)
    → (read_sheet location href contents c).rules ≡ c.rules ++ listed_sheet location href contents
unfolding read_sheet scrape_sheet
rules-read_sheet location none closed c = sym (append-nil c.rules)
rules-read_sheet location (some []) closed c = sym (append-nil c.rules)
rules-read_sheet location (some (x ∷ xs)) closed c =
    rules-scrape_css (x ∷ xs) c ∙ sym (append-nil c.rules)
rules-read_sheet location href (opened rs) c = rules-walk rs (href_or href location) c

seen-read_sheet :
    (u location : Text) (href : Option Text) (contents : Contents) (c : Crawl)
    → includes (read_sheet location href contents c).seen u
      ≡ (includes (unread_sheet location href contents) u || includes c.seen u)
unfolding read_sheet scrape_sheet
seen-read_sheet u location none closed c = refl
seen-read_sheet u location (some []) closed c = refl
seen-read_sheet u location (some (x ∷ xs)) closed c = ground (arith, seen-scrape_css u (x ∷ xs) c)
seen-read_sheet u location none (opened rs) c = seen-walk u rs (href_or none location) c
seen-read_sheet u location (some []) (opened rs) c = seen-walk u rs (href_or (some []) location) c
seen-read_sheet u location (some (x ∷ xs)) (opened rs) c =
    seen-walk u rs (href_or (some (x ∷ xs)) location) c

pub rules-collect :
    (location : Text) (ss : List Sheet) (c : Crawl)
    → (collect location ss c).rules ≡ c.rules ++ listed_sheets location ss
unfolding collect
rules-collect location [] c = sym (append-nil c.rules)
rules-collect location (s ∷ ss) c =
    rules-collect location ss (read_sheet location s.href s.contents c)
    ∙ ap (λ xs. xs ++ listed_sheets location ss) (rules-read_sheet location s.href s.contents c)
    ∙ append_assoc c.rules (listed_sheet location s.href s.contents) (listed_sheets location ss)

pub seen-collect :
    (u location : Text) (ss : List Sheet) (c : Crawl)
    → includes (collect location ss c).seen u
      ≡ (includes (unread_sheets location ss) u || includes c.seen u)
unfolding collect
seen-collect u location [] c = refl
seen-collect u location (s ∷ ss) c =
    or_trans _ _ _ (seen-collect u location ss (read_sheet location s.href s.contents c))
      (seen-read_sheet u location s.href s.contents c)
      (includes-append u (unread_sheet location s.href s.contents) (unread_sheets location ss))

-- No answer has arrived, and what was asked for is what the loop will await.
record Fresh (c : Crawl) : Type 0 where
  asked : (u : Text) → IsAsked u c
  live : (u : Text) → IsLive u c
  settled : c.settled ≡ []

Fresh-push_rules : (rs : List FontRule) (c : Crawl) → Fresh c → Fresh (push_rules rs c)
unfolding push_rules
Fresh-push_rules rs c h = record { asked = h.asked; live = h.live; settled = h.settled }

Fresh-scrape_css : (u : Text) (c : Crawl) → Fresh c → Fresh (scrape_css u c)
Fresh-scrape_css u c h = record {
  asked = λ v. IsAsked-scrape_css v u c (h.asked v);
  live = λ v. IsLive-scrape_css v u c (h.live v);
  settled = settled-scrape_css u c ∙ h.settled;
}

Fresh-Inv : (c : Crawl) → Fresh c → Inv c
Fresh-Inv c h = record {
  asked = h.asked;
  live = h.live;
  answered = λ u s. ground (arith, ap (λ x. includes x u) h.settled);
  once = λ u. omega (arith, ap (count u) h.settled);
  head = λ u rest e. ap (λ x. includes x u) h.settled;
}

Fresh-blank : Fresh blank
unfolding blank
Fresh-blank = record { asked = λ u s n. s; live = λ u p. p; settled = refl }

Fresh-collect : (location : Text) (ss : List Sheet) → Fresh (collect location ss blank)
Fresh-collect location ss =
    collect_keeps Fresh Fresh-push_rules Fresh-scrape_css location ss blank Fresh-blank

pub settled-collect : (location : Text) (ss : List Sheet) → (collect location ss blank).settled ≡ []
settled-collect location ss = (Fresh-collect location ss).settled

pub Inv-collect : (location : Text) (ss : List Sheet) → Inv (collect location ss blank)
Inv-collect location ss = Fresh-Inv _ (Fresh-collect location ss)
