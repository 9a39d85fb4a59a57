-- ===== src/Canvas/Export/Fonts/Scrape.antt =====
-- What one fetch and one answer change in the search for the font rules.
use adivento.Base.{
  true, false, ◌||◌, ◌≡◌, refl, ◌∙◌, List, [], ◌∷◌, ◌===◌, ===_iff, includes, nat_eq, list_eq, Text,
  arith,
}
use adivento.Base.Counts.{includes-append}
use adivento.Canvas.Export.Fonts.{Crawl, scrape_css, skip_settled}

-- `scrapeCss` on one address after the other.
unfoldable pub scrape_all : List Text → Crawl → Crawl
scrape_all [] c = c
scrape_all (u ∷ us) c = scrape_all us (scrape_css u c)

module _ (u : Text) where
  pub seen-scrape_css :
      (h : Text) (c : Crawl) → includes (scrape_css h c).seen u ≡ (h === u || includes c.seen u)
  unfolding scrape_css
  seen-scrape_css h c = ground (arith, ===_iff h u)

  pub seen-scrape_all :
      (hs : List Text) (c : Crawl)
      → includes (scrape_all hs c).seen u ≡ (includes hs u || includes c.seen u)
  unfolding scrape_all
  seen-scrape_all [] c = refl
  seen-scrape_all (h ∷ hs) c =
      ground (arith, seen-scrape_all hs (scrape_css h c), seen-scrape_css h c)

  -- An address that was asked for and is not answered stands among the promises that are left.
  abbrev pub IsAsked : Crawl → Type 0
  IsAsked c = includes c.seen u ≡ true → includes c.settled u ≡ false → includes c.pending u ≡ true

  -- A promise that is left is one of an address that was asked for.
  abbrev pub IsLive : Crawl → Type 0
  IsLive c = includes c.pending u ≡ true → includes c.seen u ≡ true

  pub IsAsked-scrape_css : (h : Text) (c : Crawl) → IsAsked c → IsAsked (scrape_css h c)
  unfolding scrape_css
  IsAsked-scrape_css h c k = ground (arith, ===_iff h u, includes-append u c.pending (h ∷ []))

  pub IsLive-scrape_css : (h : Text) (c : Crawl) → IsLive c → IsLive (scrape_css h c)
  unfolding scrape_css
  IsLive-scrape_css h c k = ground (arith, ===_iff h u, includes-append u c.pending (h ∷ []))

  pub IsAsked-scrape_all : (hs : List Text) (c : Crawl) → IsAsked c → IsAsked (scrape_all hs c)
  unfolding scrape_all
  IsAsked-scrape_all [] c k = k
  IsAsked-scrape_all (h ∷ hs) c k = IsAsked-scrape_all hs _ (IsAsked-scrape_css h c k)

  pub IsLive-scrape_all : (hs : List Text) (c : Crawl) → IsLive c → IsLive (scrape_all hs c)
  unfolding scrape_all
  IsLive-scrape_all [] c k = k
  IsLive-scrape_all (h ∷ hs) c k = IsLive-scrape_all hs _ (IsLive-scrape_css h c k)

  -- What the loop skips is answered.
  pub skip_settled-keeps :
      (done us : List Text)
      → includes done u ≡ false
      → includes (skip_settled done us) u ≡ includes us u
  unfolding skip_settled
  skip_settled-keeps done [] h = refl
  skip_settled-keeps done (v ∷ us) h = ground (arith, skip_settled-keeps done us h, ===_iff v u)

  pub skip_settled-within :
      (done us : List Text) → includes (skip_settled done us) u ≡ true → includes us u ≡ true
  unfolding skip_settled
  skip_settled-within done [] h = h
  skip_settled-within done (v ∷ us) h = ground (arith, skip_settled-within done us)

  pub skip_settled-head :
      (done us rest : List Text) → skip_settled done us ≡ u ∷ rest → includes done u ≡ false
  unfolding skip_settled
  skip_settled-head done [] rest h = cc
  skip_settled-head done (v ∷ us) rest h = ground (arith, skip_settled-head done us rest)

pub rules-scrape_css : (h : Text) (c : Crawl) → (scrape_css h c).rules ≡ c.rules
unfolding scrape_css
rules-scrape_css h c = ground arith

pub settled-scrape_css : (h : Text) (c : Crawl) → (scrape_css h c).settled ≡ c.settled
unfolding scrape_css
settled-scrape_css h c = ground arith

pub rules-scrape_all : (hs : List Text) (c : Crawl) → (scrape_all hs c).rules ≡ c.rules
unfolding scrape_all
rules-scrape_all [] c = refl
rules-scrape_all (h ∷ hs) c = rules-scrape_all hs _ ∙ rules-scrape_css h c

pub settled-scrape_all : (hs : List Text) (c : Crawl) → (scrape_all hs c).settled ≡ c.settled
unfolding scrape_all
settled-scrape_all [] c = refl
settled-scrape_all (h ∷ hs) c = settled-scrape_all hs _ ∙ settled-scrape_css h c
