-- ===== src/Canvas/Persist/Edited.antt =====
-- The sections of the canvas as the edits since the read of the sidecar.
use adivento.Base.{
  String, Bool, true, false, none, some, List, [], ◌∷◌, ◌≡◌, refl, arith, All, ◌∙◌, ap, Bool-cases,
  Option-cases, inl, inr,
}
use adivento.Canvas.Order.{Section}
use adivento.Canvas.Persist.{
  Sections, Canvas, effect_body, effect, hydrate, settle_once, settle, write, Event, edit, focuses,
  settles, waited, timer, unmount, edit_sections, patch_section, handle, run,
}

-- The read of the sidecar, or a write of it, succeeds.
abbrev pub Succeeds : Event → Type 0
Succeeds (settles ok) = ok ≡ true
Succeeds (timer ok) = ok ≡ true
Succeeds _ = Unit

-- What happens after the first time that the read settles.
abbrev pub since_read : List Event → List Event
since_read [] = []
since_read (edit id p ∷ es) = since_read es
since_read (focuses slot ∷ es) = since_read es
since_read (settles ok ∷ es) = es
since_read (waited ∷ es) = since_read es
since_read (timer ok ∷ es) = since_read es
since_read (unmount ∷ es) = since_read es

-- The edits among the events, made on these sections.
abbrev pub edited : List Event → Sections → Sections
edited [] s = s
edited (edit id p ∷ es) s = edited es (patch_section id p s)
edited (focuses slot ∷ es) s = edited es s
edited (settles ok ∷ es) s = edited es s
edited (waited ∷ es) s = edited es s
edited (timer ok ∷ es) s = edited es s
edited (unmount ∷ es) s = edited es s

off-handle : (e : Event) (c : Canvas) → c.off ≡ true → (handle e c).off ≡ true
unfolding handle edit_sections settle settle_once hydrate effect effect_body write
off-handle (edit id p) c h = ground arith
off-handle (focuses slot) c h = h
off-handle (settles ok) c h = ground arith
off-handle waited c h = ground arith
off-handle (timer ok) c h = ground arith
off-handle unmount c h = refl

off-run : (es : List Event) (c : Canvas) → c.off ≡ true → (run es c).off ≡ true
unfolding run
off-run [] c h = h
off-run (e ∷ es) c h = off-run es (handle e c) (off-handle e c h)

-- A canvas that is mounted after some events was so before them.
mounted-run : (es : List Event) (c : Canvas) → (run es c).off ≡ false → c.off ≡ false
mounted-run es c h = elim (Bool-cases c.off) [ inl e ↦ absurd (cc (off-run es c e)) | inr e ↦ e ]

sections-handle :
    (e : Event) (es : List Event) (c : Canvas)
    → c.did_read ≡ true
    → c.off ≡ false
    → ((handle e c).did_read ≡ true)
      × (edited es (handle e c).sections ≡ edited (e ∷ es) c.sections)
unfolding handle edit_sections settle settle_once effect effect_body write
sections-handle (edit id p) es c r h = elim (Bool-cases c.skip_next_write) [
  | inl e ↦ rw (h, r, e) (refl, refl)
  | inr e ↦ rw (h, r, e) (refl, refl)
]
sections-handle (focuses slot) es c r h = (r, refl)
sections-handle (settles ok) es c r h = rw r (refl, refl)
sections-handle waited es c r h = rw h (r, refl)
sections-handle (timer ok) es c r h = elim (Option-cases c.pending) [
  | inl e ↦ rw e (r, refl)
  | inr (s, e) ↦ rw e (r, refl)
]
sections-handle unmount es c r h = (r, refl)

sections-run :
    (es : List Event) (c : Canvas)
    → c.did_read ≡ true
    → (run es c).off ≡ false
    → (run es c).sections ≡ edited es c.sections
unfolding run
sections-run [] c r h = refl
sections-run (e ∷ es) c r h =
    let (d, s) = sections-handle e es c r (mounted-run (e ∷ es) c h) in
    sections-run es (handle e c) d h ∙ s

-- The read has not settled, and nothing was written.
abbrev Before : Sections → Canvas → Type 0
Before saved c = (c.did_read ≡ false) × (c.file ≡ some saved) × (c.pending ≡ none)

edit_sections-Before :
    (saved : Sections) (b : Bool) (id : String) (p : Section → Section) (c : Canvas)
    → Before saved c
    → Before saved (edit_sections b id p c)
unfolding edit_sections effect effect_body
edit_sections-Before saved true id p c h = h
edit_sections-Before saved false id p c h = ground arith

read-sections :
    (saved : Sections) (c : Canvas)
    → c.off ≡ false
    → Before saved c
    → ((settle true c).did_read ≡ true) × ((settle true c).sections ≡ saved)
unfolding settle settle_once hydrate effect effect_body
read-sections saved c h (d, f, p) = rw (d, h, f) (refl, refl)

pub run-edited :
    (saved : Sections) (es : List Event) (c : Canvas)
    → All Succeeds es
    → Before saved c
    → (run es c).did_read ≡ true
    → (run es c).off ≡ false
    → (run es c).sections ≡ edited (since_read es) saved
unfolding run handle write
run-edited saved [] c r b d h = absurd (cc b.0)
run-edited saved (edit id p ∷ es) c r b d h =
    run-edited saved es (handle (edit id p) c) r.1 (edit_sections-Before saved c.off id p c b) d h
run-edited saved (focuses slot ∷ es) c r b d h =
    run-edited saved es (handle (focuses slot) c) r.1 b d h
run-edited saved (settles ok ∷ es) c r b d h =
    let mounted_before = mounted-run (settles ok ∷ es) c h in
    let (did, now) = read-sections saved c mounted_before b in
    let same : handle (settles ok) c ≡ settle true c = ap (λ o. settle o c) r.0 in
    sections-run es (handle (settles ok) c) (ap (λ x. x.did_read) same ∙ did) h
    ∙ ap (edited es) (ap (λ x. x.sections) same ∙ now)
run-edited saved (waited ∷ es) c r b d h =
    run-edited saved es (handle waited c) r.1
      (elim (Bool-cases c.off) [ inl e ↦ rw e b | inr e ↦ rw e b ]) d h
run-edited saved (timer ok ∷ es) c r b d h =
    run-edited saved es (handle (timer ok) c) r.1 (rw b.2 (b.0, b.1, refl)) d h
run-edited saved (unmount ∷ es) c r b d h =
    run-edited saved es (handle unmount c) r.1 (b.0, b.1, refl) d h
