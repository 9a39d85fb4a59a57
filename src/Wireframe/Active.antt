-- ===== src/Wireframe/Active.antt =====
-- The bars of docs/design/wireframes/v2: which entries stand out.
use text.Mathlib.TextLemmas.{append-nil as cat_empty}
use mathlib.Core.List.{append-nil}
use adivento.Base.{
  Bool, false, ◌&&◌, some, List, [], ◌∷◌, ◌++◌, map, filter, if◌then◌else◌, ◌===◌, String,
  string_eq, ◌≡◌, refl, ap, ◌∙◌, Bool-cases, inl, inr,
}
use adivento.Markup.{Value, Style, Props, Nodes, nodes, append, spread, value_text}
use adivento.Markup.Queries.{texts_where, texts_where_all}
use adivento.Wireframe.Kit.Chrome.{bar_item, brand}
use adivento.Wireframe.Dark.{alt_bar, dark_accent, accent_soft, balance_pill, face}

abbrev is_value : String → Value → Bool
is_value s v = value_text v === s

-- `style[k] === v`
abbrev has_style : String → String → Style → Bool
has_style k v [] = false
has_style k v ((l, w) ∷ rest) = let r = has_style k v rest in if l === k then is_value v w else r

-- An entry in the weight of the active one.
abbrev pub is_bold : {A : Type 0} → Props A → Bool
is_bold p = has_style "fontSize" "12.5" p.style && has_style "fontWeight" "700" p.style

module _ {A : Type 0} where
  items-bold :
      (color background : Value) (padding active : String) (ts : List String) (rest : Nodes A)
      → texts_where_all is_bold
          (append (nodes (map (bar_item color background padding active) ts)) rest)
        ≡ filter (λ t. t === active) ts ++ texts_where_all is_bold rest
  unfolding bar_item
  items-bold color background padding active [] rest = refl
  items-bold color background padding active (t ∷ ts) rest = elim (Bool-cases (t === active)) [
    | inl h ↦
        rw (h, cat_empty) (ap (λ r. t ∷ r) (items-bold color background padding active ts rest))
    | inr h ↦ rw h (items-bold color background padding active ts rest)
  ]

-- In the bar of the dark screens, whatever its entries are, the entries that are drawn in the weight of the active
-- one are those that are equal to `active`, where the caller gives no style of its own.
pub alt_bar-active :
    (A : Type 0) (active : String) (items : List String)
    → texts_where is_bold (alt_bar {A = A} (some active) (some items) [])
      ≡ filter (λ t. t === active) items
unfolding alt_bar spread brand
alt_bar-active A active items =
    append-nil _
    ∙ items-bold {A = A} dark_accent accent_soft "5px 10px" active items
        (nodes (balance_pill ∷ face ∷ []))
    ∙ append-nil _
