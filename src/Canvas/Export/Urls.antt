-- ===== src/Canvas/Export/Urls.antt =====
-- `dcExport` of docs/design/wireframes/v2/design-canvas.jsx: the `url(…)` of font rules and of
-- background images are replaced by data addresses.
mod Tests
use adivento.Base.{
  ℕ, Bool, true, false, not, ◌&&◌, ◌||◌, Option, none, some, List, [], ◌∷◌, ◌++◌, map,
  if◌then◌else◌, nat_beq, Text, codes, after, span, find_all, replace_all,
}
use adivento.Canvas.Export.Fonts.{FontRule}

abbrev is_quote : ℕ → Bool
is_quote c = nat_beq c 39 || nat_beq c 34

-- `[^'")]`
abbrev is_inner : ℕ → Bool
is_inner c = not (is_quote c) && not (nat_beq c b')')

-- `['"]?`: the quote, if one stands there, and the text after it
optional_quote : Text → Text × Text
optional_quote [] = ([], [])
optional_quote (c ∷ cs) = if is_quote c then (c ∷ [], cs) else ([], c ∷ cs)

-- The whole match and its address.
record Token : Type 0 where
  whole : Text
  url : Text

abbrev token : Text → Text → Text → Token
token open_ inner close = record {
  whole = codes "url(" ++ open_ ++ inner ++ close ++ codes ")";
  url = inner;
}

-- `[^'")]+` and what `close` takes after it
inner_at : (Text → Option (Text × Text)) → Text → Text → Option (Token × Text)
unfolding span after
inner_at close open_ t =
    let inner = span is_inner t in
    elim inner.0 [
      | [] ↦ none
      | c ∷ cs ↦ elim (close inner.1) [
        | none ↦ none
        | some end ↦ elim (after (codes ")") end.1) [
          | none ↦ none
          | some rest ↦ some (token open_ inner.0 end.0, rest)
        ]
      ]
    ]

-- The back reference `\1` to the quote.
same_quote : Text → Text → Option (Text × Text)
unfolding after
same_quote quote t = elim (after quote t) [ none ↦ none | some rest ↦ some (quote, rest) ]

any_quote : Text → Option (Text × Text)
unfolding optional_quote
any_quote t = some (optional_quote t)

-- `/url\((['"]?)([^'")]+)\1\)/`
font_url_at : Text → Option (Token × Text)
unfolding after optional_quote inner_at same_quote
font_url_at t = elim (after (codes "url(") t) [
  | none ↦ none
  | some t1 ↦ let q = optional_quote t1 in inner_at (same_quote q.0) q.0 q.1
]

-- `/url\(["']?([^"')]+)["']?\)/`
background_url_at : Text → Option (Token × Text)
unfolding after optional_quote inner_at any_quote
background_url_at t = elim (after (codes "url(") t) [
  | none ↦ none
  | some t1 ↦ let q = optional_quote t1 in inner_at any_quote q.0 q.1
]

-- `url.indexOf('data:') === 0`
is_data : Text → Bool
unfolding after
is_data t = elim (after (codes "data:") t) [ none ↦ false | some rest ↦ true ]

abbrev quoted : Text → Text
quoted d = codes "url(\"" ++ d ++ codes "\")"

-- `toDataURL`: an address that cannot be fetched stays as it is.
to_data_url : (Text → Option Text) → Text → Text
to_data_url fetch_data url = elim (fetch_data url) [ none ↦ url | some d ↦ d ]

-- `fetch_data` gives the data address of what an address holds, or fails; `resolve m base` is
-- `new URL(m, base).href`, or throws.
module _ (fetch_data : Text → Option Text) (resolve : Text → Text → Option Text) where
  -- `out.split(m[0]).join(…)`, where the address is valid
  replace_font : Text → Option Text → Text → Text
  unfolding replace_all to_data_url
  replace_font whole none out = out
  replace_font whole (some abs) out = replace_all whole (quoted (to_data_url fetch_data abs)) 0 out

  -- The loop over the matches in the text of a rule.
  replace_fonts : Text → List Token → Text → Text
  unfolding is_data replace_font
  replace_fonts base [] out = out
  replace_fonts base (t ∷ ts) out =
      replace_fonts base ts
        (if is_data t.url then out else replace_font t.whole (resolve t.url base) out)

  pub inline_rule : FontRule → Text
  unfolding find_all font_url_at replace_fonts
  inline_rule rule = replace_fonts rule.base (find_all font_url_at 0 rule.css) rule.css

  -- `.join('\n')`
  join_lines : List Text → Text
  join_lines [] = []
  join_lines (t ∷ []) = t
  join_lines (t ∷ u ∷ us) = t ++ codes "\n" ++ join_lines (u ∷ us)

  unfoldable pub font_css : List FontRule → Text
  unfolding join_lines inline_rule
  font_css rules = join_lines (map inline_rule rules)

-- The jobs on one element with a background image; `inline_background` runs them in the order of the
-- matches, which is one of the orders in which the answers can arrive.
module _ (fetch_data : Text → Option Text) where
  background_job : Token → Text → Text
  unfolding is_data replace_all to_data_url
  background_job t bg =
      if is_data t.url then bg else replace_all t.whole (quoted (to_data_url fetch_data t.url)) 0 bg

  run_jobs : List Token → Text → Text
  unfolding background_job
  run_jobs [] bg = bg
  run_jobs (t ∷ ts) bg = run_jobs ts (background_job t bg)

  unfoldable pub inline_background : Text → Text
  unfolding find_all background_url_at run_jobs
  inline_background bg = run_jobs (find_all background_url_at 0 bg) bg
