-- ===== src/Canvas/Persist/Safe.antt =====
-- The sidecar file against the state of the canvas, over sessions.
use adivento.Base.{
  String, Bool, true, false, Option, none, some, List, [], ◌∷◌, ◌≡◌, refl, arith, All, coalesce,
  subst,
}
use adivento.Canvas.Order.{Section}
use adivento.Canvas.Persist.{
  Sections, Canvas, mounted, effect_body, effect, hydrate, settle_once, settle, write, Event, edit,
  focuses, settles, waited, timer, unmount, edit_sections, patch_section, handle, run,
}
use adivento.Canvas.Persist.Edited.{Succeeds, since_read, edited, run-edited}

-- What the pending write and the file are before and after the read has settled.
abbrev SyncedAt : Bool → Sections → Option Sections → Option Sections → Sections → Type 0
SyncedAt false saved pending file sections = (pending ≡ none) × (file ≡ some saved)
SyncedAt true saved pending file sections = coalesce pending file ≡ some sections

abbrev Synced : Sections → Canvas → Type 0
Synced saved c =
    (c.omelette ≡ true)
    × (c.skip_next_write ≡ false)
    × (c.off ≡ false → SyncedAt c.did_read saved c.pending c.file c.sections)

Synced-effect :
    (saved : Sections) (c : Canvas)
    → c.omelette ≡ true
    → c.skip_next_write ≡ false
    → (c.did_read ≡ false → c.file ≡ some saved)
    → Synced saved (effect c)
unfolding effect effect_body
Synced-effect saved c ho hs hf = ground arith

Synced-edit_sections :
    (saved : Sections) (b : Bool) (id : String) (p : Section → Section) (c : Canvas)
    → c.off ≡ b
    → Synced saved c
    → Synced saved (edit_sections b id p c)
unfolding edit_sections
Synced-edit_sections saved true id p c e h = h
Synced-edit_sections saved false id p c e h =
    Synced-effect saved (record c { sections = patch_section id p c.sections }) h.0 h.1
      (λ d. (subst (λ b. SyncedAt b saved c.pending c.file c.sections) d (h.2 e)).1)

Synced-handle :
    (saved : Sections) (e : Event) (c : Canvas)
    → Succeeds e
    → Synced saved c
    → Synced saved (handle e c)
unfolding handle edit_sections settle settle_once hydrate effect effect_body write
Synced-handle saved (edit id p) c r h = Synced-edit_sections saved c.off id p c refl h
Synced-handle saved (focuses slot) c r h = h
Synced-handle saved (settles ok) c r h = ground arith
Synced-handle saved waited c r h = ground arith
Synced-handle saved (timer ok) c r h = ground arith
Synced-handle saved unmount c r h = ground arith

Synced-run :
    (saved : Sections) (es : List Event) (c : Canvas)
    → All Succeeds es
    → Synced saved c
    → Synced saved (run es c)
unfolding run
Synced-run saved [] c r h = h
Synced-run saved (e ∷ es) c r h =
    Synced-run saved es (handle e c) r.1 (Synced-handle saved e c r.0 h)

file-write :
    (o : Option Sections) (c : Canvas)
    → c.omelette ≡ true
    → coalesce o c.file ≡ some c.sections
    → (write true o c).file ≡ some c.sections
unfolding write
file-write none c ho h = h
file-write (some s) c ho h = ground arith

-- With the host's bridge, a sidecar that can be read, and writes that the host does not refuse: once
-- the read has settled and while the canvas is mounted, the next run of the timer leaves the file
-- with the sections of the state, and these are what was read with all edits since the read settled.
-- An edit from before is not among them.
pub run-timer-file :
    (saved : Sections) (es : List Event)
    → All Succeeds es
    → (run es (mounted true (some saved))).did_read ≡ true
    → (run es (mounted true (some saved))).off ≡ false
    → ((handle (timer true) (run es (mounted true (some saved)))).file
        ≡ some (run es (mounted true (some saved))).sections)
      × ((run es (mounted true (some saved))).sections ≡ edited (since_read es) saved)
unfolding mounted handle
run-timer-file saved es r hd ho =
    let start = mounted true (some saved) in
    let c = run es start in
    let h = Synced-run saved es start r (refl, refl, λ f. (refl, refl)) in
    (
      file-write c.pending c h.0
          (subst (λ b. SyncedAt b saved c.pending c.file c.sections) hd (h.2 ho)),
      run-edited saved es start r (refl, refl, refl) hd ho,
    )

abbrev pub is_edit : Event → Bool
is_edit (edit id p) = true
is_edit _ = false

abbrev Quiet : Option Sections → Canvas → Type 0
Quiet file c = (c.pending ≡ none) × (c.file ≡ file) × (c.skip_next_write ≡ false)

Quiet-handle :
    (file : Option Sections) (e : Event) (c : Canvas)
    → is_edit e ≡ false
    → Quiet file c
    → Quiet file (handle e c)
unfolding handle settle settle_once hydrate effect effect_body write
Quiet-handle file (edit id p) c n h = absurd (ground arith)
Quiet-handle file (focuses slot) c n h = h
Quiet-handle file (settles ok) c n h = ground arith
Quiet-handle file waited c n h = ground arith
Quiet-handle file (timer ok) c n h = ground arith
Quiet-handle file unmount c n h = ground arith

Quiet-run :
    (file : Option Sections) (es : List Event) (c : Canvas)
    → All (λ e. is_edit e ≡ false) es
    → Quiet file c
    → Quiet file (run es c)
unfolding run
Quiet-run file [] c n h = h
Quiet-run file (e ∷ es) c n h = Quiet-run file es (handle e c) n.1 (Quiet-handle file e c n.0 h)

-- Without an edit nothing is written, also after the hydration, and nothing waits to be written.
pub run-quiet :
    (host : Bool) (file : Option Sections) (es : List Event)
    → All (λ e. is_edit e ≡ false) es
    → ((run es (mounted host file)).pending ≡ none) × ((run es (mounted host file)).file ≡ file)
unfolding mounted
run-quiet host file es n =
    let q = Quiet-run file es (mounted host file) n (refl, refl, refl) in (q.0, q.1)

abbrev Unread : Option Sections → Canvas → Type 0
Unread file c = c.did_read ≡ false → (c.pending ≡ none) × (c.file ≡ file)

Unread-handle :
    (file : Option Sections) (e : Event) (c : Canvas) → Unread file c → Unread file (handle e c)
unfolding handle edit_sections settle settle_once hydrate effect effect_body write
Unread-handle file (edit id p) c h = ground arith
Unread-handle file (focuses slot) c h = h
Unread-handle file (settles ok) c h = ground arith
Unread-handle file waited c h = ground arith
Unread-handle file (timer ok) c h = ground arith
Unread-handle file unmount c h = ground arith

Unread-run :
    (file : Option Sections) (es : List Event) (c : Canvas) → Unread file c → Unread file (run es c)
unfolding run
Unread-run file [] c h = h
Unread-run file (e ∷ es) c h = Unread-run file es (handle e c) (Unread-handle file e c h)

-- Until the read settles nothing is written, whatever is edited: the empty state does not
-- overwrite the sidecar.
pub run-unread :
    (host : Bool) (file : Option Sections) (es : List Event)
    → (run es (mounted host file)).did_read ≡ false
    → ((run es (mounted host file)).pending ≡ none) × ((run es (mounted host file)).file ≡ file)
unfolding mounted
run-unread host file es = Unread-run file es (mounted host file) (λ d. (refl, refl))
