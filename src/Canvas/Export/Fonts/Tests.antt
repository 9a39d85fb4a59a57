-- ===== src/Canvas/Export/Fonts/Tests.antt =====
-- A page with a sheet that can be read and one that cannot, which imports a second one that imports
-- the first, and the theorems at it.
use adivento.Base.{
  ℕ, ◌⊎◌, inl, inr, subst, Option, none, some, List, [], ◌∷◌, ◌++◌, if◌then◌else◌, ◌===◌, includes,
  nat_eq, list_eq, Text, codes, ◌≡◌, refl, arith, ◌≤◌, count, ◌↔◌, length, true,
}
use adivento.Canvas.Export.Fonts.Settle.{imported_of}
use adivento.Canvas.Export.Fonts.Ends.{Within}
use adivento.Canvas.Export.Fonts.Sheets.{listed_sheets, unread_sheets}
use adivento.Canvas.Export.Fonts.Reach.{Reached, all_faces, crawl-Reached, crawl_ends}
use adivento.Canvas.Export.Fonts.{
  font_faces, imports, Crawl, blank, Sheet, font_face, import_rule, closed, opened, nil, cons,
  collect, settle, in_flight, Run, stay, arrive,
}

abbrev css_a : Text
css_a = codes "@import 'b'; @font-face {x} p {y}"

abbrev css_b : Text
css_b = codes "@import  url(a);@font-face{z}"

two_imports :
    imports (codes "@import 'b'; @import url( 'c'); @import url(\"d\") x")
    ≡ codes "b" ∷ codes "url(" ∷ codes "d" ∷ []
unfolding imports
two_imports = refl

faces_a : font_faces css_a ≡ codes "@font-face {x}" ∷ []
unfolding font_faces
faces_a = refl

abbrev fetch : Text → Option Text
fetch u = if u === codes "a" then some css_a else (if u === codes "b" then some css_b else none)

abbrev resolve : Text → Text → Option Text
resolve m base = some m

abbrev sheets : List Sheet
sheets =
    record {
      href = some (codes "s");
      contents = opened (cons (font_face (codes "f")) (cons (import_rule none closed) nil));
    }
    ∷ record { href = some (codes "a"); contents = closed }
    ∷ []

abbrev location : Text
location = codes "l"

abbrev at_start : Crawl
at_start = collect location sheets blank

start_lem : at_start.pending ≡ codes "s" ∷ codes "a" ∷ []
unfolding collect blank
start_lem = refl

abbrev last : Crawl
last =
    settle fetch resolve (codes "s")
      (settle fetch resolve (codes "b") (settle fetch resolve (codes "a") at_start))

answers : Run fetch resolve at_start last 3
unfolding collect blank in_flight settle font_faces imports
answers = arrive (codes "a") refl (arrive (codes "b") refl (arrive (codes "s") refl stay))

loop_over : last.pending ≡ []
unfolding collect blank in_flight settle font_faces imports
loop_over = refl

abbrev known : List Text
known = codes "a" ∷ codes "b" ∷ codes "s" ∷ []

abbrev IsKnown : Text → Type 0
IsKnown v = includes known v ≡ true

imported-IsKnown :
    (u v : Text) (o : Option Text)
    → (o ≡ some css_a) ⊎ (o ≡ some css_b) ⊎ (o ≡ none)
    → includes (imported_of fetch resolve u o) v ≡ true
    → IsKnown v
unfolding imports
imported-IsKnown u v o (inl e) h =
    ground (arith, subst (λ x. includes (imported_of fetch resolve u x) v ≡ true) e h)
imported-IsKnown u v o (inr (inl e)) h =
    ground (arith, subst (λ x. includes (imported_of fetch resolve u x) v ≡ true) e h)
imported-IsKnown u v o (inr (inr e)) h =
    cc (subst (λ x. includes (imported_of fetch resolve u x) v ≡ true) e h)

fetch-cases : (u : Text) → (fetch u ≡ some css_a) ⊎ (fetch u ≡ some css_b) ⊎ (fetch u ≡ none)
fetch-cases u = ground arith

known-Within : Within fetch resolve known at_start
unfolding collect blank
known-Within = record {
  asked = λ u s. ground arith;
  closed = λ u v k i. imported-IsKnown u v (fetch u) (fetch-cases u) i;
}

crawl-Reached_example :
    (last.rules ≡ listed_sheets location sheets ++ all_faces fetch resolve last.settled)
    × ((u : Text)
        → ((includes last.settled u ≡ true)
            ↔ Reached fetch resolve (unread_sheets location sheets) u)
          × (count u last.settled ≤ 1))
crawl-Reached_example = crawl-Reached fetch resolve location sheets last 3 answers loop_over

crawl_ends_example :
    (3 ≤ length known) × ((f : Crawl) × (m : ℕ) × Run fetch resolve last f m × (f.pending ≡ []))
crawl_ends_example = crawl_ends fetch resolve location sheets known known-Within last 3 answers
