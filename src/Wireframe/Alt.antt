-- ===== src/Wireframe/Alt.antt =====
-- docs/design/wireframes/v2/wireframes-alt.jsx: the alternative screens, made of the kit's parts.
pub mod Intro
pub mod Feed
pub mod Trade
pub mod Mobile
pub mod Compact
pub mod Players
pub mod Hub
pub mod Terminal
mod Tests
use Prim.Native.String.{◌++◌ as cat}
use adivento.Base.{ℕ, List, [], ◌∷◌, String, map_idx, map}
use adivento.Number.{Number}
use adivento.Markup.{Value, str, num, Style, Node, text, Nodes, cons, nodes, drawn, said}

-- `AC`, `WC`, `POS` and `NEG`
abbrev pub ac : Value
ac = str "#5b9dd9"

abbrev pub wc : Value
wc = str "#e3aa54"

abbrev pub pos : Value
pos = str "#5cc491"

abbrev pub neg : Value
neg = str "#e58178"

abbrev pub faint : Value
faint = str "var(--wf-faint)"

abbrev pub soft : Value
soft = str "var(--wf-soft)"

-- `cap`
abbrev pub cap : Style
cap =
    ("fontSize", num "10")
    ∷ ("fontWeight", num "600")
    ∷ ("letterSpacing", str ".05em")
    ∷ ("textTransform", str "uppercase")
    ∷ ("color", soft)
    ∷ []

-- A whole number with its sign, as the screens write them.
pub data Change : Type 0 where
  up down : ℕ → Change

module _ (N : Number) (show : N.Num → String) {A : Type 0} where
  -- `chg(v)`: green with an upward mark from 0 on, else red with a downward one.
  unfoldable pub chg : Change → Node A
  chg (up n) =
      drawn "span" (("color", pos) ∷ ("fontWeight", num "700") ∷ ("fontSize", num "11.5") ∷ [])
        (cons (text "▲") (cons (text " ") (said (show (N.of n)))))
  chg (down n) =
      drawn "span" (("color", neg) ∷ ("fontWeight", num "700") ∷ ("fontSize", num "11.5") ∷ [])
        (cons (text "▼") (cons (text " ") (said (show (N.of n)))))
