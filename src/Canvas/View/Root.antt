-- ===== src/Canvas/View/Root.antt =====
-- docs/design/wireframes/v2/design-canvas.jsx: what `DesignCanvas` draws, and its listeners for the
-- keys and for a press outside of a rename.
use adivento.Base.{
  Bool, not, ◌&&◌, Option, none, some, if◌then◌else◌, ◌===◌, String, string_eq, truthy,
}
use adivento.Markup.{Style, Node, Nodes, nil, cons, one}
use adivento.Canvas.View.{dc_viewport}

-- `onKey`: Escape ends the focus.
unfoldable pub on_key : String → Option String → Option String
on_key key focus = if key === "Escape" then none else focus

-- `onPd`: whether the active element loses the focus, which commits a rename. `editable` says that
-- there is an active element that is edited, and `within` that it holds the target of the press.
unfoldable pub blurs : Bool → Bool → Bool
blurs editable within = editable && not within

-- `state.focus && registry[state.focus]`
unfoldable pub focused : {E : Type 0} → (String → Option E) → Option String → Option E
focused registry none = none
focused registry (some f) = if truthy f then registry f else none

-- `&& <DCFocusOverlay …/>`
overlay_of : {A E : Type 0} → (E → Node A) → Option E → Nodes A
overlay_of draw none = nil
overlay_of draw (some e) = one (draw e)

unfoldable pub design_canvas :
    {A E : Type 0}
    → (String → String)
    → Style
    → Bool
    → Nodes A
    → (String → Option E)
    → (E → Node A)
    → Option String
    → Nodes A
unfolding overlay_of focused
design_canvas encode style ready children registry draw focus =
    cons (dc_viewport encode style (if ready then children else nil))
      (overlay_of draw (focused registry focus))
