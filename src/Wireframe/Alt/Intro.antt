-- ===== src/Wireframe/Alt/Intro.antt =====
-- docs/design/wireframes/v2/wireframes-alt.jsx: `Intro`.
use adivento.Base.{List, [], ◌∷◌, String, none, some, false, true, map}
use adivento.Markup.{str, num, Node, nodes, drawn, one, said, no_props}
use adivento.Wireframe.Kit.{paragraph, col, box}
use adivento.Wireframe.Dark.{dark}
use adivento.Wireframe.Alt.{ac, faint}

abbrev pub directions : List (String × String)
directions =
    (
      "A · Navigation / IA",
      "Three home models: a live activity feed, a category hub, and a watchlist terminal dashboard — instead of one filter-grid.",
    )
    ∷ (
      "B · Detail & betting",
      "A trading-terminal layout (chart + order book + ticket rail), a chart-dominant compact view, and a mobile bottom-sheet terminal.",
    )
    ∷ (
      "C · Visual structure",
      "Dark high-contrast (not black), dense tabular data, big tickers, sparklines everywhere, mono-ish numerals.",
    )
    ∷ []

module _ {A : Type 0} where
  direction : String × String → Node A
  unfolding col paragraph
  direction d = col (some (num "8")) [] (
      nodes (
        drawn "div"
          (("fontSize", num "11")
            ∷ ("fontWeight", num "700")
            ∷ ("letterSpacing", str ".05em")
            ∷ ("textTransform", str "uppercase")
            ∷ ("color", ac)
            ∷ [])
          (said d.0)
        ∷ paragraph none false (("fontSize", num "12.5") ∷ ("lineHeight", num "1.5") ∷ [])
            (said d.1)
        ∷ []))

  unfoldable pub intro : Node A
  unfolding dark paragraph box direction
  intro = dark (some (str "#11161f")) (("padding", str "30px 34px") ∷ []) (
      nodes (
        drawn "div"
          (("fontFamily", str "'Caveat',cursive")
            ∷ ("fontSize", num "30")
            ∷ ("fontWeight", num "700")
            ∷ ("color", ac)
            ∷ ("marginBottom", num "2")
            ∷ [])
          (said "Alternative direction — Dark “Terminal”")
        ∷ paragraph none true (("marginBottom", num "20") ∷ ("fontSize", num "13") ∷ []) (
            said
              "PR2 · diverges on all three axes vs PR1’s light card-stack. High-contrast slate, data-forward, power-user leaning.")
        ∷ drawn "div"
            (("display", str "grid")
              ∷ ("gridTemplateColumns", str "repeat(3,1fr)")
              ∷ ("gap", num "24")
              ∷ [])
            (nodes (map direction directions))
        ∷ box false
            (("marginTop", num "20")
              ∷ ("padding", num "14")
              ∷ ("borderColor", faint)
              ∷ ("background", str "var(--wf-fill)")
              ∷ [])
            no_props
            (one (
              paragraph none false (("fontSize", num "12.5") ∷ []) (
                said
                  "Pick-and-mix: any single direction here can be combined with PR1. In PR3 both become a theme toggle with shared component classes.")))
        ∷ []))
