-- ===== src/Canvas/Export/Clone/Images.antt =====
-- The addresses of the pictures in the copy of an artboard.
use Prim.Native.String.{◌++◌ as cat}
use adivento.Base.{
  Bool, true, false, not, ◌||◌, Option, none, some, ◌===◌, String, string_eq, ◌≡◌, truthy, refl,
  ap₂, sym, subst, ◌⊎◌, truthy-false, ◌∙◌, Bool-cases, inl, inr, ===_apart, arith, AllSome,
}
use adivento.Canvas.Export.Clone.{
  Element, Node, text, comment, element, Nodes, nil, cons, get_attribute, clone_styled, inline_src,
  inline_image, inline_images, inline_all, with_xmlns, inline_below, export_clone,
}
use adivento.Canvas.Export.Clone.Laws.{
  Clean, CleanAll, content, content_all, shown, get-set_attribute, get-set_attribute_other,
  clone_styled-Clean, content-clone_styled,
}

style_ne-src : ◌===◌ {A = String} "src" "style" ≡ false
style_ne-src = refl

module _ (is_data : String → Bool) (data_url : String → String) where
  inline_src-style :
      (o : Option String) (e : Element)
      → get_attribute "style" (inline_src is_data data_url o e).attributes
        ≡ get_attribute "style" e.attributes
  unfolding inline_src
  inline_src-style none e = refl
  inline_src-style (some s) e = elim (Bool-cases (not (truthy s) || is_data s)) [
    | inl h ↦ rw h refl
    | inr h ↦ rw h (get-set_attribute_other "style" "src" (data_url s) e.attributes style_ne-src)
  ]

  inline_src-tag : (o : Option String) (e : Element) → (inline_src is_data data_url o e).tag ≡ e.tag
  unfolding inline_src
  inline_src-tag none e = refl
  inline_src-tag (some s) e = ground arith

  inline_image-style :
      (e : Element)
      → get_attribute "style" (inline_image is_data data_url e).attributes
        ≡ get_attribute "style" e.attributes
  unfolding inline_image
  inline_image-style e = elim (Bool-cases (e.tag === "IMG")) [
    | inl h ↦ rw h (inline_src-style (get_attribute "src" e.attributes) e)
    | inr h ↦ rw h refl
  ]

  inline_image-tag : (e : Element) → (inline_image is_data data_url e).tag ≡ e.tag
  unfolding inline_image
  inline_image-tag e = elim (Bool-cases (e.tag === "IMG")) [
    | inl h ↦ rw h (inline_src-tag (get_attribute "src" e.attributes) e)
    | inr h ↦ rw h refl
  ]

  mutual
    unfolding inline_images

    inline_images-Clean : (n : Node) → Clean n → Clean (inline_images is_data data_url n)
    inline_images-Clean (text s) k = tt
    inline_images-Clean (comment s) k = k
    inline_images-Clean (element e cs) k = (
      λ h. k.0 (sym (inline_image-tag e) ∙ h),
      λ h. k.1 (sym (inline_image-style e) ∙ h),
      inline_all-Clean cs k.2,
    )

    inline_all-Clean : (ns : Nodes) → CleanAll ns → CleanAll (inline_all is_data data_url ns)
    inline_all-Clean nil k = tt
    inline_all-Clean (cons n ns) k = (inline_images-Clean n k.0, inline_all-Clean ns k.1)

  mutual
    unfolding inline_images

    content-inline_images : (n : Node) → content (inline_images is_data data_url n) ≡ content n
    content-inline_images (text s) = refl
    content-inline_images (comment s) = refl
    content-inline_images (element e cs) = content-inline_all cs

    content-inline_all :
        (ns : Nodes) → content_all (inline_all is_data data_url ns) ≡ content_all ns
    content-inline_all nil = refl
    content-inline_all (cons n ns) = ap₂ cat (content-inline_images n) (content-inline_all ns)

  below-Clean : (n : Node) → Clean n → Clean (inline_below is_data data_url (with_xmlns n))
  unfolding inline_below with_xmlns
  below-Clean (text s) k = tt
  below-Clean (comment s) k = k
  below-Clean (element e cs) k = (
    k.0,
    λ h. k.1 (sym (get-set_attribute_other "style" "xmlns" _ e.attributes refl) ∙ h),
    inline_all-Clean cs k.2,
  )

  content-below : (n : Node) → content (inline_below is_data data_url (with_xmlns n)) ≡ content n
  unfolding inline_below with_xmlns
  content-below (text s) = refl
  content-below (comment s) = refl
  content-below (element e cs) = content-inline_all cs

  -- The copy of an artboard that is exported holds no comment and no script, each of its elements
  -- carries a style, and its text is that of the artboard outside scripts and drawn canvases.
  pub export_clone-Clean :
      (n : Node)
      → Clean (export_clone is_data data_url n)
        × (content (export_clone is_data data_url n) ≡ shown n)
  unfolding export_clone
  export_clone-Clean n = (
    below-Clean (clone_styled n) (clone_styled-Clean n),
    content-below (clone_styled n) ∙ content-clone_styled n,
  )

  -- An image has no address, an empty one, or a data address.
  abbrev pub IsInlined : Element → Type 0
  IsInlined e =
      e.tag ≡ "IMG"
      → AllSome (λ s. (s ≡ "") ⊎ (is_data s ≡ true)) (get_attribute "src" e.attributes)

  abbrev mutual
    pub Inlined : Node → Type 0
    Inlined (text s) = Unit
    Inlined (comment s) = Unit
    Inlined (element e cs) = IsInlined e × InlinedAll cs

    pub InlinedAll : Nodes → Type 0
    InlinedAll nil = Unit
    InlinedAll (cons n ns) = Inlined n × InlinedAll ns

  -- The images below a node.
  abbrev pub InlinedBelow : Node → Type 0
  InlinedBelow (text s) = Unit
  InlinedBelow (comment s) = Unit
  InlinedBelow (element e cs) = InlinedAll cs

  module _ (fetched : (s : String) → is_data (data_url s) ≡ true) where
    inline_src-IsInlined :
        (o : Option String) (e : Element)
        → get_attribute "src" e.attributes ≡ o
        → AllSome
            (λ s. (s ≡ "") ⊎ (is_data s ≡ true))
            (get_attribute "src" (inline_src is_data data_url o e).attributes)
    unfolding inline_src
    inline_src-IsInlined none e h = subst (AllSome (λ s. (s ≡ "") ⊎ (is_data s ≡ true))) (sym h) tt
    inline_src-IsInlined (some s) e h = elim (Bool-cases (not (truthy s) || is_data s)) [
      | inl b ↦ rw b (subst (AllSome (λ s. (s ≡ "") ⊎ (is_data s ≡ true))) (sym h) (kept s b))
      | inr b ↦ rw b (
          subst (AllSome (λ s. (s ≡ "") ⊎ (is_data s ≡ true)))
            (sym (get-set_attribute "src" (data_url s) e.attributes)) (inr (fetched s)))
    ]
      where
        kept : (s : String) → (not (truthy s) || is_data s) ≡ true → (s ≡ "") ⊎ (is_data s ≡ true)
        kept s b = elim (Bool-cases (truthy s)) [
          | inl t ↦ inr (ground (arith))
          | inr t ↦ inl (truthy-false s t)
        ]

    inline_image-IsInlined : (e : Element) → IsInlined (inline_image is_data data_url e)
    unfolding inline_image
    inline_image-IsInlined e = elim (Bool-cases (e.tag === "IMG")) [
      | inl h ↦ rw h (λ t. inline_src-IsInlined (get_attribute "src" e.attributes) e refl)
      | inr h ↦ rw h (λ t. absurd (===_apart e.tag "IMG" h t))
    ]

    mutual
      unfolding inline_images

      inline_images-Inlined : (n : Node) → Inlined (inline_images is_data data_url n)
      inline_images-Inlined (text s) = tt
      inline_images-Inlined (comment s) = tt
      inline_images-Inlined (element e cs) = (inline_image-IsInlined e, inline_all-Inlined cs)

      inline_all-Inlined : (ns : Nodes) → InlinedAll (inline_all is_data data_url ns)
      inline_all-Inlined nil = tt
      inline_all-Inlined (cons n ns) = (inline_images-Inlined n, inline_all-Inlined ns)

    below-Inlined : (n : Node) → InlinedBelow (inline_below is_data data_url n)
    unfolding inline_below
    below-Inlined (text s) = tt
    below-Inlined (comment s) = tt
    below-Inlined (element e cs) = inline_all-Inlined cs

    -- Where every picture can be fetched, each image below the exported copy has no address, an
    -- empty one, or a data address.
    pub export_clone-Inlined : (n : Node) → InlinedBelow (export_clone is_data data_url n)
    unfolding export_clone
    export_clone-Inlined n = below-Inlined (with_xmlns (clone_styled n))
