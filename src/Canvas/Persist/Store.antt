-- ===== src/Canvas/Persist/Store.antt =====
-- A patch of a section.
use adivento.Base.{
  String, some, [], ◌∷◌, ◌===◌, string_eq, ===_iff, if◌then◌else◌, ◌≡◌, refl, arith,
}
use adivento.Canvas.Order.{Section}
use adivento.Canvas.Persist.{Sections, find_section, section, set_section, patch_section}

find_section-set_section :
    (id other : String) (v : Section) (s : Sections)
    → find_section other (set_section id v s)
      ≡ (if id === other then some v else find_section other s)
unfolding find_section set_section
find_section-set_section id other v [] = refl
find_section-set_section id other v (p ∷ ps) = ground (
  arith,
  find_section-set_section id other v ps,
  ===_iff p.0 id,
  ===_iff p.0 other,
  ===_iff id other,
)

-- A patch makes its section what the patch makes of it, and leaves the other sections alone.
pub section-patch_section :
    (id other : String) (p : Section → Section) (s : Sections)
    → section other (patch_section id p s)
      ≡ (if id === other then p (section id s) else section other s)
unfolding section patch_section
section-patch_section id other p s =
    rw (find_section-set_section id other (p (section id s)) s) (ground arith)
