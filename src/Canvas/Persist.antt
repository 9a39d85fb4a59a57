-- ===== src/Canvas/Persist.antt =====
-- docs/design/wireframes/v2/design-canvas.jsx, the state of `DesignCanvas`: its sections, the focused
-- slot, the read of the sidecar file and the debounced writes.
-- The effect that writes runs after each change of `state.sections`. The read settles once; its
-- `finally` runs before the effect of the hydration. `file` is the content of the sidecar, which
-- only the host's `writeFile` changes, where there is a host; `none` is also a file without
-- `sections`.
pub mod Edited
pub mod Safe
pub mod Store
mod Tests
use adivento.Base.{
  String, Bool, true, false, not, Option, none, some, List, [], ◌∷◌, ◌===◌, string_eq,
  if◌then◌else◌, or_else, ◌&&◌,
}
use adivento.Canvas.Order.{Section}

-- `state.sections`
abbrev pub Sections : Type 0
Sections = List (String × Section)

abbrev pub no_section : Section
no_section = record { title = none; order = none; labels = none; hidden = none; src_key = none }

pub find_section : String → Sections → Option Section
find_section id [] = none
find_section id (p ∷ ps) = let rest = find_section id ps in if p.0 === id then some p.1 else rest

-- `state.sections[id] || {}`
pub section : String → Sections → Section
unfolding find_section
section id sections = or_else (find_section id sections) no_section

-- `{ ...s.sections, [id]: v }`
pub set_section : String → Section → Sections → Sections
set_section id v [] = (id, v) ∷ []
set_section id v (p ∷ ps) =
    let rest = set_section id v ps in if p.0 === id then (id, v) ∷ ps else p ∷ rest

-- `patchSection(id, p)`; the patch is given by what it makes of the section.
pub patch_section : String → (Section → Section) → Sections → Sections
unfolding section set_section
patch_section id p sections = set_section id (p (section id sections)) sections

-- The state and the refs of the component; `pending` is what the timer of the effect will write.
pub record Canvas : Type 0 where
  pub sections : Sections
  pub focus : Option String
  pub ready : Bool
  pub did_read : Bool
  pub skip_next_write : Bool
  pub pending : Option Sections
  pub off : Bool
  pub omelette : Bool
  pub file : Option Sections

-- The first render: `host` says whether the bridge is there.
pub mounted : Bool → Option Sections → Canvas
mounted host file = record {
  sections = [];
  focus = none;
  ready = false;
  did_read = false;
  skip_next_write = false;
  pending = none;
  off = false;
  omelette = host;
  file = file;
}

-- The effect on `state.sections`, after the cleanup of the one before it.
pub effect_body : Bool → Bool → Canvas → Canvas
effect_body false skip c = c
effect_body true true c = record c { skip_next_write = false }
effect_body true false c = record c { pending = some c.sections }

pub effect : Canvas → Canvas
unfolding effect_body
effect c = effect_body c.did_read c.skip_next_write (record c { pending = none })

-- `.then((saved) => …)` and `.finally(…)`
pub hydrate : Bool → Option Sections → Canvas → Canvas
unfolding effect
hydrate true saved c = record c { did_read = true }
hydrate false none c = record c { did_read = true; ready = true }
hydrate false (some saved) c =
    effect (record c { skip_next_write = true; sections = saved; did_read = true; ready = true })

-- The read settles: with the file's content if it succeeds, and without one if it fails.
pub settle_once : Bool → Bool → Canvas → Canvas
unfolding hydrate
settle_once true ok c = c
settle_once false ok c = hydrate c.off (if ok then c.file else none) c

pub settle : Bool → Canvas → Canvas
unfolding settle_once
settle ok c = settle_once c.did_read ok c

-- The timer of the effect: `window.omelette?.writeFile(…).catch(() => {})`. The host may refuse the
-- write, which nobody hears of; the write is taken to settle at once.
pub write : Bool → Option Sections → Canvas → Canvas
write ok none c = c
write ok (some s) c = record c {
  pending = none;
  file = if c.omelette && ok then some s else c.file;
}

-- `edit id p` is a patch of a section, `focuses` is `setFocus`, `waited` is the timeout of 150 ms,
-- `timer ok` is the timer of the effect, with the answer of the host if it writes, and `unmount` is the cleanup of both effects.
pub data Event : Type 0 where
  edit : String → (Section → Section) → Event
  focuses : Option String → Event
  settles : Bool → Event
  waited : Event
  timer : Bool → Event
  unmount : Event

-- `patchSection` and its effect; an unmounted component has no callers left.
pub edit_sections : Bool → String → (Section → Section) → Canvas → Canvas
unfolding effect patch_section
edit_sections true id p c = c
edit_sections false id p c = effect (record c { sections = patch_section id p c.sections })

pub handle : Event → Canvas → Canvas
unfolding edit_sections settle write
handle (edit id p) c = edit_sections c.off id p c
handle (focuses slot) c = record c { focus = slot }
handle (settles ok) c = settle ok c
handle waited c = if c.off then c else record c { ready = true }
handle (timer ok) c = write ok c.pending c
handle unmount c = record c { off = true; pending = none }

pub run : List Event → Canvas → Canvas
unfolding handle
run [] c = c
run (e ∷ es) c = run es (handle e c)
