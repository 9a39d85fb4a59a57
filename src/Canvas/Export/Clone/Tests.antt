-- ===== src/Canvas/Export/Clone/Tests.antt =====
-- An artboard with a script, a comment, a canvas and an image, and the theorems at it.
use adivento.Base.{
  Bool, none, some, List, [], ◌∷◌, if◌then◌else◌, ◌===◌, String, string_eq, ◌≡◌, refl,
}
use adivento.Canvas.Export.Clone.{
  Pair, Node, text, comment, element, Nodes, nil, cons, drawn, export_clone,
}
use adivento.Canvas.Export.Clone.Laws.{Clean, content, shown}
use adivento.Canvas.Export.Clone.Images.{export_clone-Clean}

abbrev tagged : String → List Pair → Nodes → Node
tagged tag attributes cs =
    element
      (record {
        tag = tag;
        attributes = attributes;
        computed = ("color", "red") ∷ [];
        picture = if tag === "CANVAS" then some "data:c" else none;
      })
      cs

abbrev card : Node
card = tagged "DIV" [] (
    cons (text "a") (
      cons (comment "b") (
        cons (tagged "SCRIPT" [] (cons (text "c") nil)) (
          cons (tagged "CANVAS" [] (cons (text "d") nil))
            (cons (tagged "IMG" (("src", "pic") ∷ []) nil) nil)))))

abbrev is_data : String → Bool
is_data s = s === "data:c"

abbrev data_url : String → String
data_url s = "data:c"

shown-card : shown card ≡ "a"
unfolding drawn
shown-card = refl

export_clone-Clean_example :
    Clean (export_clone is_data data_url card)
    × (content (export_clone is_data data_url card) ≡ shown card)
export_clone-Clean_example = export_clone-Clean is_data data_url card
