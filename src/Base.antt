-- ===== src/Base.antt =====
-- The names that the other modules share: the libraries', passed on, and those of the children.
pub mod Tests
pub mod Equality
pub mod Lists
pub mod Counts
pub mod Texts
unfoldable pub use Texts.{join, after, span, find_all, replace_all}
pub use Texts.{Text, codes, between, is_space, is_word}
pub use Tests.{
  ltb, leb, nat_beq, if◌then◌else◌, Bool-cases, Option-cases, or_else, coalesce, leb→le, le→leb,
}
pub use Equality.{
  Eq, ◌===◌, nat_eq, string_eq, list_eq, ===_iff, ===_refl, ===_ne, ===_apart, truthy, truthy-false,
}
pub use Lists.{
  length, get_elem?, filter, map_idx, All, any, insert_at, length-append, length-map,
  length-map_idx, length-insert_at, includes, index_of, count, All-append, All-append_left,
  All-append_right, All-reverse, All-map, AllSome,
}
pub use Prim.Native.Nat.{ℕ, zero, suc, ◌+◌, ◌-◌, ◌*◌, ◌/◌, ◌%◌, ◌^◌, ◌≤◌, ◌<◌}
pub use Prim.Native.String.{String}
pub use mathlib.Core.Path.{◌≡◌, refl, sym, ap, ap₂, ◌∙◌, subst}
pub use mathlib.Core.Logic.{◌≢◌, ◌↔◌, ◌⊎◌, inl, inr}
pub use mathlib.Core.Bool.{Bool, true, false, not, ◌&&◌, ◌||◌}
pub use mathlib.Core.Option.{Option, none, some, some-injective}
pub use mathlib.Core.List.{List, [], ◌∷◌, ◌++◌, map, reverse}
pub use native.Mathlib.Omega.{arith}
