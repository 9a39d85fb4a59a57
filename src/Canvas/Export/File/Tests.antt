-- ===== src/Canvas/Export/File/Tests.antt =====
-- An artboard with a slash and a question mark in its label, and what is saved of it.
use adivento.Base.{Option, none, some, [], Text, codes, ◌≡◌, refl, ◌≤◌, length, false}
use adivento.Canvas.Export.File.{
  replace_unsafe, file_name, or_text, html, page, failed, svg_document, dc_export,
}
use adivento.Canvas.Export.File.Laws.{IsSafe, file_name-IsSafe}

abbrev label : Option Text
label = some (codes "a/?b .c")

name_text : file_name label none ≡ codes "a_b .c"
unfolding file_name
name_text = refl

no_name_text : file_name (some []) none ≡ codes "artboard"
unfolding file_name
no_name_text = refl

page_text :
    dc_export {P = Text} (λ svg w h. failed) 1 2 (codes "n") html [] (codes "x")
    ≡ some (record {
      file = codes "n.html";
      blob = page (
          codes
            "<!doctype html><html><head><meta charset=\"utf-8\"><title>n</title></head><body style=\"margin:0\">x</body></html>");
    })
unfolding dc_export
page_text = refl

svg_text :
    svg_document 104 2 (codes "f") (codes "x")
    ≡ codes
        "<svg xmlns=\"http://www.w3.org/2000/svg\" width=\"312\" height=\"6\" viewBox=\"0 0 104 2\"><foreignObject width=\"104\" height=\"2\"><style><![CDATA[f]]></style>x</foreignObject></svg>"
unfolding svg_document
svg_text = refl

file_name-IsSafe_example :
    IsSafe (file_name label none)
    × (length (file_name label none) ≤ length (or_text label (or_text none (codes "artboard"))))
    × (replace_unsafe false (file_name label none) ≡ file_name label none)
file_name-IsSafe_example = file_name-IsSafe label none
