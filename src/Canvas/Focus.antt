-- ===== src/Canvas/Focus.antt =====
-- docs/design/wireframes/v2/design-canvas.jsx, `DCFocusOverlay`: the arrow keys of the focus mode.
-- The overlay is shown for an entry of the registry, so its artboard stands in its section's slots
-- and its section in the order of sections. A slot is given by its section and its artboard, for
-- the text `${sectionId}/${id}`.
pub mod Go
pub mod Wrap
pub mod Sections
mod Tests
use adivento.Base.{
  ℕ, zero, suc, ◌+◌, ◌-◌, ◌*◌, ◌%◌, String, Bool, true, false, Option, none, some, List, [], ◌∷◌,
  length, get_elem?, index_of, string_eq, nat_eq, ◌===◌, filter, not, if◌then◌else◌, truthy,
  coalesce, leb,
}

-- The slot in focus, and the sections as the canvas shows them.
pub record Overlay : Type 0 where
  pub section_id : String
  pub aid : String
  pub section_order : List String
  pub slot_ids : String → List String

-- A step of 1 or -1.
pub data Step : Type 0 where
  forward : Step
  backward : Step

-- `(idx + d + n) % n`, where `idx` is -1 if nothing was found.
pub step_index : Step → Option ℕ → ℕ → ℕ
step_index forward none n = n % n
step_index forward (some i) n = (i + 1 + n) % n
step_index backward none n = (n - 2) % n
step_index backward (some i) n = (i + n - 1) % n

-- `if (n) ctx.setFocus(…)`
pub focus_on : String → Option String → Option (String × String)
focus_on sid none = none
focus_on sid (some n) = if truthy n then some (sid, n) else none

-- `go(d)`: the slot that is focused, if one is.
pub go : Step → Overlay → Option (String × String)
unfolding step_index focus_on
go d v =
    let peers = v.slot_ids v.section_id in
    focus_on v.section_id (get_elem? peers (step_index d (index_of peers v.aid) (length peers)))

-- `(((secIdx + d * i) % n) + n) % n`: the remainder of a negative number is negative, and the sum
-- with n brings it into the range.
pub wrap : Step → Option ℕ → ℕ → ℕ → ℕ
wrap forward none i n = ((i - 1) % n + n) % n
wrap forward (some k) i n = ((k + i) % n + n) % n
wrap backward none i n = (n - (i + 1) % n) % n
wrap backward (some k) i n = if leb i k then ((k - i) % n + n) % n else (n - (i - k) % n) % n

-- `const first = sectionMeta[ns] && sectionMeta[ns].slotIds[0]`, and what is focused if it is there
pub first_slot : Option String → (String → List String) → Option (String × String)
unfolding focus_on
first_slot none slots = none
first_slot (some ns) slots = focus_on ns (get_elem? (slots ns) 0)

pub candidate :
    Step → Option ℕ → List String → (String → List String) → ℕ → Option (String × String)
unfolding first_slot wrap
candidate d k order slots i = first_slot (get_elem? order (wrap d k i (length order))) slots

-- The loop of `goSection` from `i`, with the rounds that are left.
pub go_loop :
    ℕ → ℕ → Step → Option ℕ → List String → (String → List String) → Option (String × String)
unfolding candidate
go_loop zero i d k order slots = none
go_loop (suc m) i d k order slots =
    coalesce (candidate d k order slots i) (go_loop m (suc i) d k order slots)

-- `goSection(d)`
pub go_section : Step → Overlay → Option (String × String)
unfolding go_loop
go_section d v =
    go_loop (length v.section_order - 1) 1 d (index_of v.section_order v.section_id) v.section_order
      v.slot_ids

-- `ctx.setFocus(…)`, and the overlay for the new slot
pub refocus : String → String → Overlay → Overlay
refocus sid n v = record v { section_id = sid; aid = n }

-- The key listener of the overlay; another key does nothing here.
pub on_key : String → Overlay → Option (String × String)
unfolding go go_section
on_key key v =
    if key === "ArrowLeft"
    then go backward v
    else (if key === "ArrowRight"
        then go forward v
        else (if key === "ArrowUp"
            then go_section backward v
            else (if key === "ArrowDown" then go_section forward v else none)))

-- The sections of the dropdown: those that have slots.
pub dropdown : Overlay → List String
dropdown v = filter (λ sid. not (length (v.slot_ids sid) === 0)) v.section_order

-- A click on a section of the dropdown
pub pick_section : String → Overlay → Option (String × String)
unfolding first_slot
pick_section sid v = first_slot (some sid) v.slot_ids
