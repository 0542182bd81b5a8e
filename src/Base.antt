-- ===== src/Base.antt =====
-- The names that the modules share: the libraries', passed on, and those of the children.
mod Tests
mod Keys
mod Maps
mod Lists
mod Sorting
mod Texts
pub use Tests.*
pub use Keys.*
pub use Lists.{
  length, All, AllAfter, IsAscending, keep_if-All, All-mono, place-IsAscending,
  sort_unique-IsAscending, contains-place, contains-sort_unique,
}
unfoldable pub use Lists.{all_of, any_of, keep_if, contains, place, sort_unique}
pub use Sorting.{
  Member, IsInOrder, IsStrict, sort-IsInOrder, in_order-IsStrict, Member-sort, sort-Member,
  find_by_sound, find_by-Member,
}
unfoldable pub use Sorting.{insert_by, sort_by, has_adjacent, find_by}
pub use Texts.{
  strip_prefix_sound, take_until-drop_until, split_first_sound, split_last_sound, split_last-none,
}
unfoldable pub use Texts.{strip_prefix, take_until, drop_until, split_first, split_last, has_byte}
pub use Maps.{
  Map, is_some, map_option, filter_option, lookup, contains_key, lookup-insert, lookup-erase, Above,
  IsSorted, lookup-Above, insert-IsSorted, erase-IsSorted, lookup-map_values, map_values-IsSorted,
  Above-map_values, retain-IsSorted, lookup-retain, map_laws,
}
unfoldable pub use Maps.{insert, erase, map_values, retain}
pub use Prim.Native.Nat.{ℕ, zero, suc, ◌+◌, ◌-◌, ◌*◌, ◌/◌, ◌%◌, ◌^◌, ◌≤◌, ◌<◌}
pub use Prim.Native.String.{String}
pub use mathlib.Core.Path.{◌≡◌, refl, sym, ap, ◌∙◌, subst}
pub use mathlib.Core.Logic.{◌≢◌, ◌↔◌, ◌⊎◌, inl, inr}
pub use mathlib.Core.Bool.{Bool, true, false, not, ◌&&◌, ◌||◌}
pub use mathlib.Core.Option.{Option, none, some}
pub use mathlib.Core.List.{List, [], ◌∷◌, ◌++◌, map, append_assoc, append-nil}
pub use native.Mathlib.Omega.{arith}
