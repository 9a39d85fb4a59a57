-- ===== src/Wireframe/Alt/Tests.antt =====
-- The entries of the bars that the alternative screens show as active.
use adivento.Base.{[], ◌∷◌, String, ◌≡◌, refl, none}
use adivento.Number.Exact.{exact}
use adivento.Markup.Queries.{texts_where, text_of}
use adivento.Wireframe.Active.{is_bold}
use adivento.Wireframe.Kit.Charts.{sparkline, chart}
use adivento.Wireframe.Alt.{chg, down}
use adivento.Wireframe.Alt.Feed.{feed}
use adivento.Wireframe.Alt.Hub.{hub}
use adivento.Wireframe.Alt.Terminal.{terminal}
use adivento.Wireframe.Alt.Players.{portfolio}

feed_bold : texts_where is_bold (feed exact (λ n. "n") none {A = String}) ≡ "Home" ∷ []
unfolding feed sparkline
feed_bold = refl

hub_bold :
    texts_where is_bold (hub exact (λ n. "n") none {A = String}) ≡ "Markets" ∷ "Politics" ∷ []
unfolding hub sparkline
hub_bold = refl

terminal_bold : texts_where is_bold (terminal exact (λ n. "n") {A = String}) ≡ "▦Markets" ∷ []
unfolding terminal
terminal_bold = refl

change_text : text_of (chg exact (λ n. "2") {A = String} (down 2)) ≡ "▼ 2"
unfolding chg
change_text = refl

portfolio_bold : texts_where is_bold (portfolio exact (λ n. "n") none {A = String}) ≡ "Home" ∷ []
unfolding portfolio chart
portfolio_bold = refl
