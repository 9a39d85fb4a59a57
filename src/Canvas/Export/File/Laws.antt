-- ===== src/Canvas/Export/File/Laws.antt =====
-- The name of the file that an artboard is saved as.
use adivento.Base.{
  Bool, true, false, Option, [], ◌∷◌, if◌then◌else◌, Text, codes, ◌≡◌, refl, ap, All, Bool-cases,
  inl, inr, ◌≤◌, length, arith,
}
use adivento.Canvas.Export.File.{is_safe, replace_unsafe, file_name, or_text}

abbrev pub IsSafe : Text → Type 0
IsSafe t = All (λ c. is_safe c ≡ true) t

underscore : is_safe b'_' ≡ true
unfolding is_safe
underscore = refl

-- One underscore stands for a match.
in_match :
    (inside : Bool) (gone : Text) → IsSafe gone → IsSafe (if inside then gone else b'_' ∷ gone)
in_match true gone h = h
in_match false gone h = (underscore, h)

replace_unsafe-IsSafe : (inside : Bool) (t : Text) → IsSafe (replace_unsafe inside t)
unfolding replace_unsafe
replace_unsafe-IsSafe inside [] = tt
replace_unsafe-IsSafe inside (c ∷ cs) = elim (Bool-cases (is_safe c)) [
  | inl h ↦ rw h (h, replace_unsafe-IsSafe false cs)
  | inr h ↦ rw h (in_match inside (replace_unsafe true cs) (replace_unsafe-IsSafe true cs))
]

replace_unsafe_safe : (inside : Bool) (t : Text) → IsSafe t → replace_unsafe inside t ≡ t
unfolding replace_unsafe
replace_unsafe_safe inside [] h = refl
replace_unsafe_safe inside (c ∷ cs) h = rw h.0 (ap (λ r. c ∷ r) (replace_unsafe_safe false cs h.1))

replace_unsafe-le : (inside : Bool) (t : Text) → length (replace_unsafe inside t) ≤ length t
unfolding replace_unsafe
replace_unsafe-le inside [] = omega arith
replace_unsafe-le inside (c ∷ cs) =
    ground (arith, replace_unsafe-le false cs, replace_unsafe-le true cs)

-- The name under which an artboard is saved has word characters, spaces, dots and hyphens only, is
-- no longer than the label, the id or `artboard` that it stands for, and replacing the other
-- characters once more leaves it as it is.
pub file_name-IsSafe :
    (label id : Option Text)
    → IsSafe (file_name label id)
      × (length (file_name label id) ≤ length (or_text label (or_text id (codes "artboard"))))
      × (replace_unsafe false (file_name label id) ≡ file_name label id)
unfolding file_name
file_name-IsSafe label id =
    let source = or_text label (or_text id (codes "artboard")) in
    let safe = replace_unsafe-IsSafe false source in
    (safe, replace_unsafe-le false source, replace_unsafe_safe false _ safe)
