-- ===== src/Canvas/Export/Urls/Tests.antt =====
-- A font rule and a background image with addresses of several kinds.
use adivento.Base.{none, some, [], ◌∷◌, ◌++◌, ◌≡◌, refl, codes}
use adivento.Canvas.Export.Urls.{font_css, inline_background}

rule_text :
    font_css
      (λ u. some (codes "data:1"))
      (λ m base. some (base ++ m))
      (record { css = codes "a url('x') b url(data:0) url(x\")"; base = codes "/" } ∷ [])
    ≡ codes "a url(\"data:1\") b url(data:0) url(x\")"
unfolding font_css
rule_text = refl

background_text :
    inline_background (λ u. none) (codes "url(\"x'), url(data:0)") ≡ codes "url(\"x\"), url(data:0)"
unfolding inline_background
background_text = refl
