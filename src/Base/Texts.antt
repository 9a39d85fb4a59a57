-- ===== src/Base/Texts.antt =====
-- Texts as lists of character codes, where the source looks into them, and the joining of strings.
use Prim.Native.Nat.{ℕ, zero, suc, ◌-◌}
use Prim.Native.Char.{code}
use Prim.Native.String.{String, ◌++◌ as cat}
use mathlib.Core.Bool.{Bool, ◌||◌, ◌&&◌}
use mathlib.Core.Option.{Option, none, some}
use mathlib.Core.List.{List, [], ◌∷◌, ◌++◌}
use adivento.Base.Lists.{length}
use adivento.Base.Tests.{if◌then◌else◌, nat_beq, leb}

-- A text that the source searches: its UTF-16 codes.
abbrev pub Text : Type 0
Text = List ℕ

-- The codes of a string.
abbrev pub codes : String → Text
codes String.[] = []
codes (String.◌∷◌ c s) = code c ∷ codes s

-- `ks.join(sep)`
unfoldable pub join : String → List String → String
join sep [] = ""
join sep (k ∷ []) = k
join sep (k ∷ l ∷ ks) = cat k (cat sep (join sep (l ∷ ks)))

-- The text after a literal that it begins with.
unfoldable pub after : Text → Text → Option Text
after [] t = some t
after (p ∷ ps) [] = none
after (p ∷ ps) (c ∷ cs) = if nat_beq p c then after ps cs else none

-- The longest beginning whose characters pass a test, and the rest.
unfoldable pub span : (ℕ → Bool) → Text → Text × Text
span ok [] = ([], [])
span ok (c ∷ cs) = let r = span ok cs in if ok c then (c ∷ r.0, r.1) else ([], c ∷ cs)

abbrev pub between : ℕ → ℕ → ℕ → Bool
between lo hi c = leb lo c && leb c hi

-- `\s` of a regular expression
abbrev pub is_space : ℕ → Bool
is_space c =
    between 9 13 c
    || nat_beq c 32
    || nat_beq c 160
    || nat_beq c 5760
    || between 8192 8202 c
    || between 8232 8233 c
    || nat_beq c 8239
    || nat_beq c 8287
    || nat_beq c 12288
    || nat_beq c 65279

-- `\w` of a regular expression
abbrev pub is_word : ℕ → Bool
is_word c = between b'0' b'9' c || between b'A' b'Z' c || between b'a' b'z' c || nat_beq c b'_'

-- `t.match(re)` or `t.matchAll(re)` with the flag g: what `here` takes from each match, where
-- `here` gives the text after a match. The first argument counts the characters still inside one.
unfoldable pub find_all {ℓ} : {A : Type ℓ} → (Text → Option (A × Text)) → ℕ → Text → List A
find_all here k [] = []
find_all here (suc k) (c ∷ cs) = find_all here k cs
find_all here zero (c ∷ cs) = elim (here (c ∷ cs)) [
  | none ↦ find_all here zero cs
  | some m ↦ m.0 ∷ find_all here (length cs - length m.1) cs
]

-- `t.split(tok).join(new)` for a token that is not empty
unfoldable pub replace_all : Text → Text → ℕ → Text → Text
replace_all tok new k [] = []
replace_all tok new (suc k) (c ∷ cs) = replace_all tok new k cs
replace_all tok new zero (c ∷ cs) = elim (after tok (c ∷ cs)) [
  | none ↦ c ∷ replace_all tok new zero cs
  | some rest ↦ new ++ replace_all tok new (length cs - length rest) cs
]
