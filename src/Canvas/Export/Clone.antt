-- ===== src/Canvas/Export/Clone.antt =====
-- `dcExport` of docs/design/wireframes/v2/design-canvas.jsx, its copy of the artboard: the styles
-- that the browser computed are written into it, scripts and comments are left out, and a canvas is
-- replaced by its picture; then the addresses of pictures become data addresses.
pub mod Laws
pub mod Images
mod Tests
use Prim.Native.String.{◌++◌ as cat}
use adivento.Base.{
  Bool, true, false, not, ◌||◌, Option, none, some, List, [], ◌∷◌, ◌++◌, if◌then◌else◌, ◌===◌,
  String, string_eq, ◌≡◌, truthy,
}

-- An attribute or a property, with its value.
abbrev pub Pair : Type 0
Pair = String × String

-- An element without its children: `computed` is `getComputedStyle`, in its order, and `picture` is
-- what `toDataURL` gives, if it does not throw (that of a canvas).
pub record Element : Type 0 where
  pub tag : String
  pub attributes : List Pair
  pub computed : List Pair
  pub picture : Option String

mutual
  pub data Node : Type 0 where
    text : String → Node
    comment : String → Node
    element : Element → Nodes → Node

  pub data Nodes : Type 0 where
    nil : Nodes
    cons : Node → Nodes → Nodes

-- `getAttribute`
unfoldable pub get_attribute : String → List Pair → Option String
get_attribute k [] = none
get_attribute k ((l, v) ∷ rest) = let r = get_attribute k rest in if l === k then some v else r

-- `setAttribute`
unfoldable pub set_attribute : String → String → List Pair → List Pair
set_attribute k w [] = (k, w) ∷ []
set_attribute k w ((l, v) ∷ rest) =
    let r = set_attribute k w rest in if l === k then (l, w) ∷ rest else (l, v) ∷ r

-- The loop over the computed style.
unfoldable pub style_text : List Pair → String
style_text [] = ""
style_text ((k, v) ∷ rest) = cat k (cat ":" (cat v (cat ";" (style_text rest))))

abbrev pub still : String
still = "animation:none;transition:none;"

unfoldable pub styled : Element → Element
unfolding set_attribute style_text
styled e = record e {
  attributes = set_attribute "style" (cat (style_text e.computed) still) e.attributes;
}

-- `document.createElement('img')` with the picture of a canvas
unfoldable pub picture_of : Element → String → Element
unfolding style_text
picture_of e url = record {
  tag = "IMG";
  attributes = ("src", url) ∷ ("style", style_text e.computed) ∷ [];
  computed = [];
  picture = none;
}

-- The `try` on a canvas: where the picture cannot be had, the copy goes on.
unfoldable pub drawn : Element → Option String
drawn e = if e.tag === "CANVAS" then e.picture else none

-- The end of `cloneStyled` on an element, after its children were copied.
unfoldable pub clone_element : Element → Nodes → Option String → Node
unfolding styled picture_of
clone_element e copies none = element (styled e) copies
clone_element e copies (some url) = element (picture_of e url) nil

unfoldable mutual
  unfolding clone_element drawn

  pub clone_styled : Node → Node
  clone_styled (text s) = text s
  clone_styled (comment s) = text ""
  clone_styled (element e cs) =
      let copies = clone_all cs in
      if e.tag === "SCRIPT" then text "" else clone_element e copies (drawn e)

  pub clone_all : Nodes → Nodes
  clone_all nil = nil
  clone_all (cons n ns) = cons (clone_styled n) (clone_all ns)

-- `clone.setAttribute('xmlns', …)`
unfoldable pub with_xmlns : Node → Node
unfolding set_attribute
with_xmlns (text s) = text s
with_xmlns (comment s) = comment s
with_xmlns (element e cs) =
    element
      (record e { attributes = set_attribute "xmlns" "http://www.w3.org/1999/xhtml" e.attributes })
      cs

-- `data_url` is `toDataURL` of the address that `el.src` resolves the attribute to; `is_data` says
-- that an attribute begins with `data:`.
module _ (is_data : String → Bool) (data_url : String → String) where
  unfoldable pub inline_src : Option String → Element → Element
  unfolding set_attribute
  inline_src none e = e
  inline_src (some s) e =
      if not (truthy s) || is_data s
      then e
      else record e { attributes = set_attribute "src" (data_url s) e.attributes }

  -- One round of the loop over `querySelectorAll('img')`.
  unfoldable pub inline_image : Element → Element
  unfolding inline_src get_attribute
  inline_image e = if e.tag === "IMG" then inline_src (get_attribute "src" e.attributes) e else e

  unfoldable mutual
    unfolding inline_image

    pub inline_images : Node → Node
    inline_images (text s) = text s
    inline_images (comment s) = comment s
    inline_images (element e cs) = element (inline_image e) (inline_all cs)

    pub inline_all : Nodes → Nodes
    inline_all nil = nil
    inline_all (cons n ns) = cons (inline_images n) (inline_all ns)

  -- `clone.querySelectorAll('img')`: the images below the copy.
  unfoldable pub inline_below : Node → Node
  unfolding inline_images
  inline_below (text s) = text s
  inline_below (comment s) = comment s
  inline_below (element e cs) = element e (inline_all cs)

  -- The copy that is serialized.
  unfoldable pub export_clone : Node → Node
  unfolding clone_styled inline_below with_xmlns
  export_clone n = inline_below (with_xmlns (clone_styled n))
