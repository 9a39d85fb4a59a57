-- ===== src/Canvas/Export/Fonts.antt =====
-- `dcExport` of docs/design/wireframes/v2/design-canvas.jsx, its font rules: the style sheets of the
-- page that can be read are walked, and the text of the others is fetched and searched, as are
-- those that such a text imports.
pub mod Scrape
pub mod Settle
pub mod Ends
pub mod Reach
pub mod Sheets
mod Tests
use adivento.Base.{
  ℕ, Bool, true, not, ◌&&◌, ◌||◌, ◌≡◌, suc, coalesce, Option, none, some, List, [], ◌∷◌, ◌++◌, map,
  if◌then◌else◌, nat_beq, includes, nat_eq, list_eq, Text, codes, after, span, find_all, is_space,
}

-- `[^}]*}` and the text after it
up_to_brace : Text → Option (Text × Text)
unfolding span
up_to_brace t =
    let r = span (λ c. not (nat_beq c b'}')) t in
    elim r.1 [ [] ↦ none | c ∷ cs ↦ some (r.0 ++ c ∷ [], cs) ]

-- `/@font-face\s*{[^}]*}/`: the match and the text after it
font_face_at : Text → Option (Text × Text)
unfolding after span up_to_brace
font_face_at t = elim (after (codes "@font-face") t) [
  | none ↦ none
  | some t1 ↦
      let spaces = span is_space t1 in
      elim (after (codes "{") spaces.1) [
        | none ↦ none
        | some t2 ↦ elim (up_to_brace t2) [
          | none ↦ none
          | some body ↦ some (codes "@font-face" ++ spaces.0 ++ codes "{" ++ body.0, body.1)
        ]
      ]
]

-- `css.match(…) || []`
unfoldable pub font_faces : Text → List Text
unfolding find_all font_face_at
font_faces css = find_all font_face_at 0 css

-- `[^'")\s;]`
is_url_char : ℕ → Bool
is_url_char c =
    not (nat_beq c 39)
    && not (nat_beq c 34)
    && not (nat_beq c b')')
    && not (is_space c)
    && not (nat_beq c b';')

-- `([^'")\s;]+)`: what it captures and the text after it
url_run : Text → Option (Text × Text)
unfolding span is_url_char
url_run t = let r = span is_url_char t in elim r.0 [ [] ↦ none | c ∷ cs ↦ some r ]

-- `['"]?([^'")\s;]+)`
quoted_run : Text → Option (Text × Text)
unfolding url_run
quoted_run [] = none
quoted_run (c ∷ cs) = if nat_beq c 39 || nat_beq c 34 then url_run cs else url_run (c ∷ cs)

-- `(?:url\()?['"]?([^'")\s;]+)`: where no address follows `url(`, these are taken for its beginning.
import_target : Text → Option (Text × Text)
unfolding after quoted_run
import_target t = elim (after (codes "url(") t) [
  | none ↦ quoted_run t
  | some inside ↦ coalesce (quoted_run inside) (quoted_run t)
]

-- `/@import\s+(?:url\()?['"]?([^'")\s;]+)/`: the group and the text after the match
import_at : Text → Option (Text × Text)
unfolding after span import_target
import_at t = elim (after (codes "@import") t) [
  | none ↦ none
  | some t1 ↦
      let spaces = span is_space t1 in elim spaces.0 [ [] ↦ none | _ ∷ _ ↦ import_target spaces.1 ]
]

-- the groups of `css.matchAll(…)`
unfoldable pub imports : Text → List Text
unfolding find_all import_at
imports css = find_all import_at 0 css

-- `{ css, base }`
pub record FontRule : Type 0 where
  pub css : Text
  pub base : Text

-- `fontRules`, `seen` and `pending`, whose first entry is the promise that the loop awaits. A promise
-- stands for the address that it fetches; `settled` are those whose promise is settled, in order.
pub record Crawl : Type 0 where
  pub rules : List FontRule
  pub seen : List Text
  pub pending : List Text
  pub settled : List Text

unfoldable pub blank : Crawl
blank = record { rules = []; seen = []; pending = []; settled = [] }

unfoldable pub push_rules : List FontRule → Crawl → Crawl
push_rules rs c = record c { rules = c.rules ++ rs }

unfoldable pub scrape_css : Text → Crawl → Crawl
scrape_css href c =
    if includes c.seen href
    then c
    else record c { seen = href ∷ c.seen; pending = c.pending ++ href ∷ [] }

-- The rules of the object model: an import whose sheet is missing, or one with the address of its
-- sheet; `group` is any other rule that holds rules. Reading `cssRules` throws where `closed`.
mutual
  pub data Rule : Type 0 where
    font_face : Text → Rule
    import_missing : Rule
    import_rule : Option Text → Contents → Rule
    group : Rules → Rule
    plain : Rule

  pub data Contents : Type 0 where
    closed : Contents
    opened : Rules → Contents

  pub data Rules : Type 0 where
    nil : Rules
    cons : Rule → Rules → Rules

-- An entry of `document.styleSheets`.
pub record Sheet : Type 0 where
  pub href : Option Text
  pub contents : Contents

-- `href || base`: an empty address is falsy.
unfoldable pub href_or : Option Text → Text → Text
href_or none base = base
href_or (some []) base = base
href_or (some (c ∷ cs)) base = c ∷ cs

unfoldable mutual
  unfolding push_rules scrape_css href_or

  pub walk : Rules → Text → Crawl → Crawl
  walk nil base c = c
  walk (cons r rs) base c = walk rs base (walk_rule r base c)

  pub walk_rule : Rule → Text → Crawl → Crawl
  walk_rule (font_face css) base c = push_rules (record { css = css; base = base } ∷ []) c
  walk_rule import_missing base c = c
  walk_rule (import_rule href closed) base c = scrape_css (href_or href base) c
  walk_rule (import_rule href (opened rs)) base c = walk rs (href_or href base) c
  walk_rule (group rs) base c = walk rs base c
  walk_rule plain base c = c

-- `if (ss.href) scrapeCss(ss.href)`
unfoldable pub scrape_sheet : Option Text → Crawl → Crawl
unfolding scrape_css
scrape_sheet none c = c
scrape_sheet (some []) c = c
scrape_sheet (some (x ∷ xs)) c = scrape_css (x ∷ xs) c

unfoldable pub read_sheet : Text → Option Text → Contents → Crawl → Crawl
unfolding walk href_or scrape_sheet
read_sheet location href closed c = scrape_sheet href c
read_sheet location href (opened rs) c = walk rs (href_or href location) c

-- The loop over `document.styleSheets`.
unfoldable pub collect : Text → List Sheet → Crawl → Crawl
unfolding read_sheet
collect location [] c = c
collect location (s ∷ ss) c = collect location ss (read_sheet location s.href s.contents c)

-- `while (pending.length) await pending.shift()` up to the first promise that is not settled.
unfoldable pub skip_settled : List Text → List Text → List Text
skip_settled done [] = []
skip_settled done (u ∷ us) = if includes done u then skip_settled done us else u ∷ us

-- `fetch` gives the text of an address, or fails; `resolve m base` is `new URL(m, base).href`, or
-- throws.
module _ (fetch : Text → Option Text) (resolve : Text → Text → Option Text) where
  -- The loop over the imports: an address that is not valid ends it, in the `catch`.
  unfoldable pub scrape_imports : Text → List Text → Crawl → Crawl
  unfolding scrape_css
  scrape_imports href [] c = c
  scrape_imports href (m ∷ ms) c = elim (resolve m href) [
    | none ↦ c
    | some u ↦ scrape_imports href ms (scrape_css u c)
  ]

  -- The function of the last `then` in `scrapeCss`.
  unfoldable pub scrape_text : Text → Option Text → Crawl → Crawl
  unfolding push_rules font_faces imports scrape_imports
  scrape_text href none c = c
  scrape_text href (some css) c =
      scrape_imports href (imports css)
        (push_rules (map (λ m. record { css = m; base = href }) (font_faces css)) c)

  -- The answer for an address arrives.
  unfoldable pub settle : Text → Crawl → Crawl
  unfolding scrape_text skip_settled
  settle href c =
      let d = scrape_text href (fetch href) c in
      let done = d.settled ++ href ∷ [] in
      record d { settled = done; pending = skip_settled done d.pending }

  unfoldable pub in_flight : Crawl → Text → Bool
  in_flight c u = includes c.seen u && not (includes c.settled u)

  -- Answers in any order, each for an address that was asked for, and how many.
  pub data Run : Crawl → Crawl → ℕ → Type 0 where
    stay : {c : Crawl} → Run c c 0
    arrive :
        {c d : Crawl} {n : ℕ} (u : Text)
        → in_flight c u ≡ true
        → Run (settle u c) d n
        → Run c d (suc n)
