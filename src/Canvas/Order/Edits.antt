-- ===== src/Canvas/Order/Edits.antt =====
-- What deleting and reordering do to the list that a section shows.
use adivento.Base.{
  String, Bool, true, false, not, ◌&&◌, Option, some, List, [], ◌∷◌, ◌++◌, filter, includes, ◌===◌,
  string_eq, ===_iff, ===_refl, or_else, ◌≡◌, refl, ap, sym, ◌∙◌, arith,
}
use mathlib.Core.List.{append-nil}
use adivento.Base.Counts.{includes-filter, includes-append, filter-append, filter_comm}
use adivento.Canvas.Order.{
  Element, Section, src_key_of, hidden_at, hidden_of, src_ids, arrange, slot_ids, all_ids,
  section_order, on_reorder, on_delete,
}
use adivento.Canvas.Order.Laws.{slot_ids-arrange}

module _ {A : Type 0} where
  filter-filter :
      (p q r : A → Bool) (xs : List A)
      → ((x : A) → r x ≡ (q x && p x))
      → filter r xs ≡ filter p (filter q xs)
  filter-filter p q r [] h = refl
  filter-filter p q r (x ∷ xs) h = ground (arith, filter-filter p q r xs h, h x)

  filter_agree :
      (p q r : A → Bool) (xs : List A)
      → ((x : A) → p x ≡ true → q x ≡ r x)
      → filter q (filter p xs) ≡ filter r (filter p xs)
  filter_agree p q r [] h = refl
  filter_agree p q r (x ∷ xs) h = ground (arith, filter_agree p q r xs h, h x)

-- `(k) => k !== id`
abbrev pub other_than : String → String → Bool
other_than k x = not (x === k)

arrange-filter :
    (p : String → Bool) (order : Option (List String)) (src : List String)
    → arrange order (filter p src) ≡ filter p (arrange order src)
unfolding arrange
arrange-filter p order src =
    let o = or_else order [] in
    let kept = filter (includes src) o in
    let kept' = filter (includes (filter p src)) o in
    let same : kept' ≡ filter p kept =
      filter-filter p (includes src) (includes (filter p src)) o
        (λ x. rw (includes-filter p x src) (ground arith)) in
    let q : String → Bool = λ x. not (includes kept x) in
    let q' : String → Bool = λ x. not (includes (filter p kept) x) in
    rw same (
      rw (filter-append p kept (filter q src)) (
        ap (λ rest. filter p kept ++ rest)
          (filter_agree p q' q src (λ x h. rw (includes-filter p x kept) (ground arith))
            ∙ sym (filter_comm p q src))))

hidden_of-on_delete :
    (k : String) (sec : Section) (children : List Element)
    → hidden_of (on_delete children k sec) (all_ids children)
      ≡ hidden_of sec (all_ids children) ++ k ∷ []
unfolding on_delete hidden_of hidden_at
hidden_of-on_delete k sec children = rw (===_refl (src_key_of (all_ids children))) refl

src_ids-on_delete :
    (k : String) (sec : Section) (children : List Element)
    → src_ids (on_delete children k sec) (all_ids children)
      ≡ filter (other_than k) (src_ids sec (all_ids children))
unfolding src_ids
src_ids-on_delete k sec children =
    let ids = all_ids children in
    let h = hidden_of sec ids in
    filter-filter (other_than k) (λ x. not (includes h x))
      (λ x. not (includes (hidden_of (on_delete children k sec) ids) x)) ids
      (λ x.
        rw (hidden_of-on_delete k sec children)
          (rw (includes-append x h (k ∷ [])) (ground (arith, ===_iff x k, ===_iff k x))))

-- After an artboard is deleted, the section shows what it showed, in the same order, without that
-- artboard, whether or not the persisted deletions were of this revision of the source.
pub slot_ids-on_delete :
    (k : String) (sec : Section) (children : List Element)
    → slot_ids (on_delete children k sec) children ≡ filter (other_than k) (slot_ids sec children)
unfolding on_delete
slot_ids-on_delete k sec children = rw (slot_ids-arrange (on_delete children k sec) children) (
    rw (slot_ids-arrange sec children) (
      rw (src_ids-on_delete k sec children)
        (arrange-filter (other_than k) sec.order (src_ids sec (all_ids children)))))

filter_members :
    (p : String → Bool) (xs : List String)
    → ((x : String) → includes xs x ≡ true → p x ≡ true)
    → filter p xs ≡ xs
filter_members p [] h = refl
filter_members p (x ∷ xs) h =
    rw (h x (rw (===_refl x) refl))
      (ap (λ ys. x ∷ ys) (filter_members p xs (λ y hy. h y (rw hy (ground arith)))))

filter_none :
    (p : String → Bool) (xs : List String)
    → ((x : String) → includes xs x ≡ true → p x ≡ false)
    → filter p xs ≡ []
filter_none p [] h = refl
filter_none p (x ∷ xs) h =
    rw (h x (rw (===_refl x) refl)) (filter_none p xs (λ y hy. h y (rw hy (ground arith))))

includes-arrange :
    (k : String) (order : Option (List String)) (src : List String)
    → includes (arrange order src) k ≡ includes src k
unfolding arrange
includes-arrange k order src =
    let o = or_else order [] in
    let kept = filter (includes src) o in
    rw (includes-append k kept (filter (λ x. not (includes kept x)) src)) (
      rw (includes-filter (λ x. not (includes kept x)) k src)
        (rw (includes-filter (includes src) k o) (ground arith)))

arrange_all :
    (next src : List String)
    → ((k : String) → includes next k ≡ includes src k)
    → arrange (some next) src ≡ next
unfolding arrange
arrange_all next src h = rw (filter_members (includes src) next (λ x hx. sym (h x) ∙ hx)) (
    rw (filter_none (λ x. not (includes next x)) src (λ x hx. ap not (h x ∙ hx))) (append-nil next))

-- After a reorder to any list of the shown artboards, the section shows that list.
pub slot_ids-on_reorder :
    (next : List String) (sec : Section) (children : List Element)
    → ((k : String) → includes next k ≡ includes (section_order sec children) k)
    → slot_ids (on_reorder next sec) children ≡ next
unfolding section_order on_reorder src_ids hidden_of
slot_ids-on_reorder next sec children h =
    slot_ids-arrange (on_reorder next sec) children
    ∙ arrange_all next (src_ids sec (all_ids children))
        (λ k. h k ∙ includes-arrange k sec.order (src_ids sec (all_ids children)))
