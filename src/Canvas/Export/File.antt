-- ===== src/Canvas/Export/File.antt =====
-- `dcExport` and the name of its file in `doExport` of docs/design/wireframes/v2/design-canvas.jsx:
-- the page or the picture that is made of the copy, and its download.
pub mod Laws
mod Tests
use adivento.Base.{
  ℕ, zero, suc, ◌+◌, ◌*◌, ◌/◌, ◌%◌, Bool, true, false, ◌||◌, Option, none, some, List, [], ◌∷◌,
  ◌++◌, if◌then◌else◌, nat_beq, Text, codes, is_space, is_word,
}

-- `[\w\s.-]`
unfoldable pub is_safe : ℕ → Bool
is_safe c = is_word c || is_space c || nat_beq c b'.' || nat_beq c b'-'

-- `.replace(/[^\w\s.-]+/g, '_')`; the first argument says that the text before ends in a match.
unfoldable pub replace_unsafe : Bool → Text → Text
unfolding is_safe
replace_unsafe inside [] = []
replace_unsafe inside (c ∷ cs) =
    let kept = replace_unsafe false cs in
    let gone = replace_unsafe true cs in
    if is_safe c then c ∷ kept else (if inside then gone else b'_' ∷ gone)

-- `a || b` on texts
abbrev pub or_text : Option Text → Text → Text
or_text none b = b
or_text (some []) b = b
or_text (some (c ∷ cs)) b = c ∷ cs

-- `String(label || id || 'artboard').replace(…)`
unfoldable pub file_name : Option Text → Option Text → Text
unfolding replace_unsafe
file_name label id = replace_unsafe false (or_text label (or_text id (codes "artboard")))

-- A whole number in a text; the first argument bounds its digits.
digits : ℕ → ℕ → Text
digits zero n = []
digits (suc fuel) n =
    let high = n / 10 in
    let rest = digits fuel high in (if nat_beq high 0 then [] else rest) ++ (b'0' + n % 10) ∷ []

number : ℕ → Text
unfolding digits
number n = digits (suc n) n

-- `kind`: every other kind than `html` is a picture.
pub data Kind : Type 0 where
  html png : Kind

unfoldable pub extension : Kind → Text
extension html = codes "html"
extension png = codes "png"

-- `fontCss ? before + fontCss + after : ''`
style_block : Text → Text → Text → Text
style_block before [] after = []
style_block before (c ∷ cs) after = before ++ (c ∷ cs) ++ after

unfoldable pub html_document : Text → Text → Text → Text
unfolding style_block
html_document name font_css xml =
    codes "<!doctype html><html><head><meta charset=\"utf-8\"><title>"
    ++ name
    ++ codes "</title>"
    ++ style_block (codes "<style>") font_css (codes "</style>")
    ++ codes "</head><body style=\"margin:0\">"
    ++ xml
    ++ codes "</body></html>"

abbrev pub px : ℕ
px = 3

unfoldable pub svg_document : ℕ → ℕ → Text → Text → Text
unfolding style_block number
svg_document w h font_css xml =
    codes "<svg xmlns=\"http://www.w3.org/2000/svg\" width=\""
    ++ number (w * px)
    ++ codes "\" height=\""
    ++ number (h * px)
    ++ codes "\" viewBox=\"0 0 "
    ++ number w
    ++ codes " "
    ++ number h
    ++ codes "\"><foreignObject width=\""
    ++ number w
    ++ codes "\" height=\""
    ++ number h
    ++ codes "\">"
    ++ style_block (codes "<style><![CDATA[") font_css (codes "]]></style>")
    ++ xml
    ++ codes "</foreignObject></svg>"

-- What a file holds: a page, or what the browser makes of the canvas.
pub data Blob (P : Type 0) : Type 0 where
  page : Text → Blob P
  picture : P → Blob P

pub record Download (P : Type 0) : Type 0 where
  pub file : Text
  pub blob : Blob P

-- `save`: without a blob there is no download.
unfoldable pub save : {P : Type 0} → Text → Option (Blob P) → Text → Option (Download P)
save name none ext = none
save name (some b) ext = some (record { file = name ++ codes "." ++ ext; blob = b })

-- What drawing ends in: the image does not load, `toBlob` gives nothing, or it gives a picture.
pub data Drawing (P : Type 0) : Type 0 where
  failed empty : Drawing P
  drawn : P → Drawing P

unfoldable pub save_drawing : {P : Type 0} → Text → Drawing P → Option (Download P)
unfolding save extension
save_drawing name failed = none
save_drawing name empty = save name none (extension png)
save_drawing name (drawn p) = save name (some (picture p)) (extension png)

-- The end of `dcExport`: `raster` loads the SVG and draws it on a canvas of a size.
unfoldable pub dc_export :
    {P : Type 0}
    → (Text → ℕ → ℕ → Drawing P)
    → ℕ
    → ℕ
    → Text
    → Kind
    → Text
    → Text
    → Option (Download P)
unfolding save html_document svg_document save_drawing extension
dc_export raster w h name html font_css xml =
    save name (some (page (html_document name font_css xml))) (extension html)
dc_export raster w h name png font_css xml =
    save_drawing name (raster (svg_document w h font_css xml) (w * px) (h * px))
