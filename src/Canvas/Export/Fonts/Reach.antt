-- ===== src/Canvas/Export/Fonts/Reach.antt =====
-- The search for the font rules against the imports of the style sheets, as a relation.
use mathlib.Core.List.{append-nil, append_assoc}
use adivento.Base.{
  ℕ, zero, suc, true, ◌≡◌, ap, sym, ◌∙◌, subst, length, Option, List, [], ◌∷◌, ◌++◌, ===_iff,
  includes, nat_eq, list_eq, Text, arith, ◌≤◌, count, ◌↔◌, inl, inr, Bool-cases,
}
use adivento.Base.Counts.{includes-append}
use adivento.Canvas.Export.Fonts.{
  FontRule, Crawl, blank, Sheet, collect, settle, in_flight, Run, stay, arrive,
}
use adivento.Canvas.Export.Fonts.Settle.{
  Inv, Inv-settle, imported, faces, rules-settle, settled-settle, seen-settle,
}
use adivento.Canvas.Export.Fonts.Ends.{Within, answers_finish}
use adivento.Canvas.Export.Fonts.Sheets.{
  listed_sheets, unread_sheets, rules-collect, seen-collect, settled-collect, Inv-collect,
}

module _ (fetch : Text → Option Text) (resolve : Text → Text → Option Text) where
  -- An unreadable sheet of the page, or one that the text of such a sheet imports.
  pub data Reached (starts : List Text) : Text → Type 0 where
    start : {u : Text} → includes starts u ≡ true → Reached starts u
    imports :
        {u v : Text}
        → Reached starts u
        → includes (imported fetch resolve u) v ≡ true
        → Reached starts v

  -- The font faces of these texts, in this order.
  abbrev pub all_faces : List Text → List FontRule
  all_faces [] = []
  all_faces (u ∷ us) = faces fetch resolve u ++ all_faces us

  all_faces-append :
      (us : List Text) (u : Text) → all_faces (us ++ u ∷ []) ≡ all_faces us ++ faces fetch resolve u
  all_faces-append [] u = append-nil (faces fetch resolve u)
  all_faces-append (v ∷ us) u =
      ap (λ xs. faces fetch resolve v ++ xs) (all_faces-append us u)
      ∙ sym (append_assoc (faces fetch resolve v) (all_faces us) (faces fetch resolve u))

  module _ (starts : List Text) (first : List FontRule) where
    record Sound (c : Crawl) : Type 0 where
      inv : Inv c
      rules : c.rules ≡ first ++ all_faces c.settled
      starts_seen : (u : Text) → includes starts u ≡ true → includes c.seen u ≡ true
      reached : (u : Text) → includes c.seen u ≡ true → Reached starts u
      searched :
          (u v : Text)
          → includes c.settled u ≡ true
          → includes (imported fetch resolve u) v ≡ true
          → includes c.seen v ≡ true

    seen-reached :
        (u v : Text) (c : Crawl)
        → includes c.seen u ≡ true
        → Sound c
        → includes (settle fetch resolve u c).seen v ≡ true
        → Reached starts v
    seen-reached u v c s h t = elim (Bool-cases (includes (imported fetch resolve u) v)) [
      | inl e ↦ imports (h.reached u s) e
      | inr e ↦ h.reached v (ground (arith, seen-settle fetch resolve u v c))
    ]

    searched-settle :
        (u v w : Text) (c : Crawl)
        → Sound c
        → includes (settle fetch resolve u c).settled v ≡ true
        → includes (imported fetch resolve v) w ≡ true
        → includes (settle fetch resolve u c).seen w ≡ true
    searched-settle u v w c h s i = elim (Bool-cases (includes c.settled v)) [
      | inl e ↦ ground (arith, seen-settle fetch resolve u w c, h.searched v w e i)
      | inr e ↦
          let same : u ≡ v = ground (
            arith,
            ap (λ x. includes x v) (settled-settle fetch resolve u c),
            includes-append v c.settled (u ∷ []),
            ===_iff u v,
          ) in
          ground (
            arith,
            seen-settle fetch resolve u w c,
            subst (λ x. includes (imported fetch resolve x) w ≡ true) (sym same) i,
          )
    ]

    rules-Sound :
        (u : Text) (c : Crawl)
        → c.rules ≡ first ++ all_faces c.settled
        → (settle fetch resolve u c).rules ≡ first ++ all_faces (settle fetch resolve u c).settled
    rules-Sound u c h =
        rules-settle fetch resolve u c
        ∙ ap (λ xs. xs ++ faces fetch resolve u) h
        ∙ append_assoc first (all_faces c.settled) (faces fetch resolve u)
        ∙ ap (λ xs. first ++ xs)
            (sym (all_faces-append c.settled u)
              ∙ ap all_faces (sym (settled-settle fetch resolve u c)))

    Sound-settle :
        (u : Text) (c : Crawl)
        → in_flight fetch resolve c u ≡ true
        → Sound c
        → Sound (settle fetch resolve u c)
    unfolding in_flight
    Sound-settle u c fly h = record {
      inv = Inv-settle fetch resolve u c h.inv fly;
      rules = rules-Sound u c h.rules;
      starts_seen = λ v s. ground (arith, seen-settle fetch resolve u v c, h.starts_seen v);
      reached = λ v s. seen-reached u v c (ground arith) h s;
      searched = λ v w s i. searched-settle u v w c h s i;
    }

    Sound-Run : (c d : Crawl) (n : ℕ) → Run fetch resolve c d n → Sound c → Sound d
    Sound-Run c d zero stay h = h
    Sound-Run c d (suc n) (arrive u fly r) h =
        Sound-Run (settle fetch resolve u c) d n r (Sound-settle u c fly h)

    -- Where the loop has ended, all that was asked for is answered.
    seen-settled :
        (c : Crawl) (u : Text)
        → Sound c
        → c.pending ≡ []
        → includes c.seen u ≡ true
        → includes c.settled u ≡ true
    seen-settled c u h e s = ground (arith, h.inv.asked u s, ap (λ x. includes x u) e)

    Reached-settled :
        (c : Crawl) (u : Text)
        → Sound c
        → c.pending ≡ []
        → Reached starts u
        → includes c.settled u ≡ true
    Reached-settled c u h e (start s) = seen-settled c u h e (h.starts_seen u s)
    Reached-settled c u h e (imports {u = v} r i) =
        seen-settled c u h e (h.searched v u (Reached-settled c v h e r) i)

  Sound-collect :
      (location : Text) (ss : List Sheet)
      → Sound (unread_sheets location ss) (listed_sheets location ss) (collect location ss blank)
  unfolding blank
  Sound-collect location ss = record {
    inv = Inv-collect location ss;
    rules =
        rules-collect location ss blank
        ∙ sym (append-nil (listed_sheets location ss))
        ∙ ap (λ xs. listed_sheets location ss ++ all_faces xs) (sym (settled-collect location ss));
    starts_seen = λ u s. ground (arith, seen-collect u location ss blank);
    reached = λ u s. start (ground (arith, seen-collect u location ss blank));
    searched =
        λ u v s i. absurd (ground (arith, ap (λ x. includes x u) (settled-collect location ss)));
  }

-- In whatever order the answers for the style sheets arrive, when the loop over `pending` has ended
-- the font rules are those of the sheets that can be read, in the order of the page, and after them
-- the font faces of the fetched texts, in the order of their answers; and the answered addresses are
-- exactly those of the sheets that cannot be read and of what such texts import, each once.
pub crawl-Reached :
    (fetch : Text → Option Text) (resolve : Text → Text → Option Text) (location : Text)
    (ss : List Sheet) (d : Crawl) (n : ℕ)
    → Run fetch resolve (collect location ss blank) d n
    → d.pending ≡ []
    → (d.rules ≡ listed_sheets location ss ++ all_faces fetch resolve d.settled)
      × ((u : Text)
          → ((includes d.settled u ≡ true) ↔ Reached fetch resolve (unread_sheets location ss) u)
            × (count u d.settled ≤ 1))
crawl-Reached fetch resolve location ss d n r e =
    let starts = unread_sheets location ss in
    let first = listed_sheets location ss in
    let h =
      Sound-Run fetch resolve starts first (collect location ss blank) d n r
        (Sound-collect fetch resolve location ss) in
    (
      h.rules,
      λ u. (
        (
          λ s. h.reached u (h.inv.answered u s),
          λ w. Reached-settled fetch resolve starts first d u h e w,
        ),
        h.inv.once u,
      ),
    )

-- Where the addresses of the page's unreadable sheets and of what they import all stand in a list,
-- at most as many answers arrive as it is long, and from every moment on some answers end the loop.
pub crawl_ends :
    (fetch : Text → Option Text) (resolve : Text → Text → Option Text) (location : Text)
    (ss : List Sheet) (us : List Text)
    → Within fetch resolve us (collect location ss blank)
    → (d : Crawl) (n : ℕ) → Run fetch resolve (collect location ss blank) d n
    → (n ≤ length us) × ((f : Crawl) × (m : ℕ) × Run fetch resolve d f m × (f.pending ≡ []))
crawl_ends fetch resolve location ss us w d n r =
    answers_finish fetch resolve us (collect location ss blank) (Inv-collect location ss) w d n r
