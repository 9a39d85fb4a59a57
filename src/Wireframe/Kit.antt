-- ===== src/Wireframe/Kit.antt =====
-- docs/design/wireframes/v2/wireframe-kit.jsx: the primitives. A property that the caller leaves
-- out is `none` or `false`, and an absent style is the empty one.
pub mod Chrome
pub mod Charts
use Prim.Native.String.{◌++◌ as cat}
use adivento.Base.{
  ℕ, zero, suc, Bool, true, false, Option, none, some, List, [], ◌∷◌, map, if◌then◌else◌, nat_beq,
  String, or_else,
}
use adivento.Markup.{
  Value, str, num, value_text, Style, Props, Node, text, element, Nodes, nil, cons, nodes, append,
  no_props, classed, drawn, both, one, said, spread,
}

-- `A`
abbrev pub accent : Value
accent = str "#356b8a"

abbrev pub soft_ink : Value
soft_ink = str "var(--wf-soft)"

module _ {A : Type 0} where
  -- `pad = 0` and `bg = '#fff'`
  unfoldable pub screen : Option Value → Option Value → Style → Nodes A → Node A
  unfolding spread
  screen pad bg style children =
      both "div" "wf"
        (spread
          (("width", str "100%")
            ∷ ("height", str "100%")
            ∷ ("background", or_else bg (str "#fff"))
            ∷ ("padding", or_else pad (num "0"))
            ∷ ("overflow", str "hidden")
            ∷ ("position", str "relative")
            ∷ [])
          style)
        children

  -- `p` are the other properties.
  unfoldable pub box : Bool → Style → Props A → Nodes A → Node A
  box dashed style p children =
      element "div"
        (record p {
          class_name = some (cat "wf-box" (if dashed then " wf-dashed" else ""));
          style = style;
        })
        children

  unfoldable pub img : Option String → Style → Node A
  img label style = both "div" "wf-img" style (said (or_else label "image"))

  unfoldable pub line : Option Value → Style → Node A
  unfolding spread
  line w style = both "div" "wf-line" (spread (("width", or_else w (str "100%")) ∷ []) style) nil

  -- The lines from index `i` on: `left` of them, the last one with its own width.
  unfoldable pub line_rows : ℕ → Value → Value → List (Node A)
  line_rows zero last w = []
  line_rows (suc left) last w =
      both "div" "wf-line" (("width", if nat_beq left 0 then last else w) ∷ []) nil
      ∷ line_rows left last w

  unfoldable pub lines : Option ℕ → Option Value → Option Value → Option Value → Style → Node A
  unfolding spread line_rows
  lines n gap last w style =
      both "div" "wf-col" (spread (("gap", or_else gap (num "7")) ∷ []) style)
        (nodes (line_rows (or_else n 3) (or_else last (str "60%")) (or_else w (str "100%"))))

  unfoldable pub btn : Bool → Bool → Style → Nodes A → Node A
  btn primary ghost style children =
      both "span"
        (cat "wf-btn"
          (cat (if primary then " wf-btn-primary" else "") (if ghost then " wf-btn-ghost" else "")))
        style children

  unfoldable pub pill : Bool → Style → Nodes A → Node A
  pill active style children =
      both "span" (cat "wf-pill" (if active then " wf-pill-active" else "")) style children

  unfoldable pub chip : Style → Nodes A → Node A
  chip style children = both "span" "wf-chip" style children

  unfoldable pub card : Style → Nodes A → Node A
  card style children = both "div" "wf-card" style children

  unfoldable pub field : Option String → Style → Node A
  field label style = both "div" "wf-field" style (said (or_else label ""))

  unfoldable pub label : Style → Nodes A → Node A
  unfolding spread
  label style children =
      drawn "div"
        (spread
          (("fontSize", num "11")
            ∷ ("fontWeight", num "600")
            ∷ ("letterSpacing", str ".04em")
            ∷ ("textTransform", str "uppercase")
            ∷ ("color", soft_ink)
            ∷ [])
          style)
        children

  -- `H`
  unfoldable pub heading : Option Value → Style → Nodes A → Node A
  unfolding spread
  heading size style children =
      drawn "div"
        (spread
          (("fontSize", or_else size (num "20"))
            ∷ ("fontWeight", num "700")
            ∷ ("color", str "var(--wf-ink)")
            ∷ ("lineHeight", num "1.2")
            ∷ [])
          style)
        children

  -- `Text`
  unfoldable pub paragraph : Option Value → Bool → Style → Nodes A → Node A
  unfolding spread
  paragraph size soft style children =
      drawn "div"
        (spread
          (("fontSize", or_else size (num "12.5"))
            ∷ ("color", if soft then soft_ink else str "var(--wf-ink)")
            ∷ ("lineHeight", num "1.4")
            ∷ [])
          style)
        children

  unfoldable pub divider : Style → Node A
  divider style = both "div" "wf-divider" style nil

  unfoldable pub row : Option Value → Style → Nodes A → Node A
  unfolding spread
  row gap style children =
      both "div" "wf-row" (spread (("gap", or_else gap (num "8")) ∷ []) style) children

  unfoldable pub col : Option Value → Style → Nodes A → Node A
  unfolding spread
  col gap style children =
      both "div" "wf-col" (spread (("gap", or_else gap (num "8")) ∷ []) style) children

  unfoldable pub avatar : Option Value → Style → Node A
  unfolding spread
  avatar size style =
      let s = or_else size (num "30") in
      drawn "div"
        (spread
          (("width", s)
            ∷ ("height", s)
            ∷ ("borderRadius", str "50%")
            ∷ ("border", str "1.5px solid var(--wf-line)")
            ∷ ("background", str "var(--wf-fill)")
            ∷ ("flex", str (cat "0 0 " (cat (value_text s) "px")))
            ∷ [])
          style)
        nil

  -- `n != null && …`
  abbrev ann_number : Option String → Nodes A
  ann_number none = nil
  ann_number (some n) = one (both "span" "wf-num" (("marginTop", num "1") ∷ []) (said n))

  unfoldable pub ann : Option String → Style → Nodes A → Node A
  unfolding spread
  ann n style children =
      both "div" "wf-row" (spread (("gap", num "6") ∷ ("alignItems", str "flex-start") ∷ []) style)
        (append (ann_number n) (one (classed "span" "wf-ann" children)))
