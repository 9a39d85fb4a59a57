-- ===== src/Canvas/Order/Labels.antt =====
-- Renamed artboards.
use adivento.Base.{
  String, Option, some, List, [], ◌∷◌, ◌===◌, string_eq, ===_iff, if◌then◌else◌, or_else, ◌≡◌, refl,
  arith,
}
use adivento.Canvas.Order.{Section, set_label, on_rename, find_label, label_of}

find_label-set_label :
    (k l v : String) (ls : List (String × String))
    → find_label l (set_label k v ls) ≡ (if k === l then some v else find_label l ls)
unfolding find_label set_label
find_label-set_label k l v [] = refl
find_label-set_label k l v (p ∷ ps) =
    ground (arith, find_label-set_label k l v ps, ===_iff p.0 k, ===_iff p.0 l, ===_iff k l)

-- After a rename, the artboard shows the new label and every other artboard shows the one it had.
pub label_of-on_rename :
    (k l v : String) (own : Option String) (sec : Section)
    → label_of l own (on_rename k v sec) ≡ (if k === l then some v else label_of l own sec)
unfolding label_of on_rename
label_of-on_rename k l v own sec =
    rw (find_label-set_label k l v (or_else sec.labels [])) (ground arith)
