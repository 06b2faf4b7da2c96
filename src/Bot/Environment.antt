-- ===== src/Bot/Environment.antt =====
-- The environment that internal/bot/runner.go gives to a bot.
use yuzu_agent_webrtc_toy.Prelude.{
  ◌≡◌, refl, Bool, true, not, ◌&&◌, List, [], ◌∷◌, Option, none, some, arith, ◌==◌, if◌then◌else◌,
}
use yuzu_agent_webrtc_toy.Text.{Str, str_eq, str_eq_iff, is_empty}
use yuzu_agent_webrtc_toy.Maps.{
  Map, lookup, insert, lookup-insert, occurrences, IsMap, insert-IsMap, lookup-absent,
}
use yuzu_agent_webrtc_toy.Bot.{split_entry, add_parsed, add_base, add_all, merged}

add_all-IsMap : (extra m : Map Str) → IsMap m → IsMap (add_all extra m)
unfolding add_all
add_all-IsMap [] m h = h
add_all-IsMap ((k, v) ∷ extra) m h = add_all-IsMap extra (insert k v m) (insert-IsMap k v m h)

add_parsed-IsMap : (e : Option (Str × Str)) (m : Map Str) → IsMap m → IsMap (add_parsed e m)
add_parsed-IsMap none m h = h
add_parsed-IsMap (some ([], v)) m h = h
add_parsed-IsMap (some (c ∷ k, v)) m h = insert-IsMap (c ∷ k) v m h

add_base-IsMap : (base : List Str) (m : Map Str) → IsMap m → IsMap (add_base base m)
unfolding add_base
add_base-IsMap [] m h = h
add_base-IsMap (kv ∷ base) m h =
    add_base-IsMap base (add_parsed (split_entry kv) m) (add_parsed-IsMap (split_entry kv) m h)

-- A test of it.
unfoldable pub is_map : Map Str → Bool
is_map [] = true
is_map ((j, v) ∷ m) = occurrences j m == 0 && is_map m

pub is_map-IsMap : (m : Map Str) → is_map m ≡ true → IsMap m
unfolding is_map occurrences
is_map-IsMap [] h k = omega arith
is_map-IsMap ((j, v) ∷ m) h k =
    let tests : (occurrences j m ≡ 0) × (is_map m ≡ true) = ground (arith, h) in
    ground (arith, str_eq_iff j k, is_map-IsMap m tests.1 k, tests.0)

-- The specification: the value that an entry gives to a name, and that of the last entry which gives
-- one.
abbrev pub given : Option (Str × Str) → Str → Option Str
given none k = none
given (some (j, v)) k = if not (is_empty j) && str_eq j k then some v else none

abbrev pub or_else : Option Str → Option Str → Option Str
or_else none y = y
or_else (some x) y = some x

unfoldable pub last_given : List Str → Str → Option Str
last_given [] k = none
last_given (kv ∷ base) k = or_else (last_given base k) (given (split_entry kv) k)

lookup-add_parsed :
    (e : Option (Str × Str)) (k : Str) (m : Map Str)
    → lookup k (add_parsed e m) ≡ or_else (given e k) (lookup k m)
lookup-add_parsed none k m = refl
lookup-add_parsed (some ([], v)) k m = refl
lookup-add_parsed (some (c ∷ j, v)) k m = ground (arith, lookup-insert (c ∷ j) k v m)

or_else-none : (x : Option Str) → or_else x none ≡ x
or_else-none none = refl
or_else-none (some x) = refl

or_else_assoc : (x y z : Option Str) → or_else (or_else x y) z ≡ or_else x (or_else y z)
or_else_assoc none y z = refl
or_else_assoc (some x) y z = refl

lookup-add_base :
    (base : List Str) (k : Str) (m : Map Str)
    → lookup k (add_base base m) ≡ or_else (last_given base k) (lookup k m)
unfolding add_base last_given
lookup-add_base [] k m = refl
lookup-add_base (kv ∷ base) k m = rw (
  lookup-add_base base k (add_parsed (split_entry kv) m),
  lookup-add_parsed (split_entry kv) k m,
  or_else_assoc (last_given base k) (given (split_entry kv) k) (lookup k m),
)

IsMap-tail : (k v : Str) (m : Map Str) → IsMap ((k, v) ∷ m) → IsMap m
unfolding occurrences
IsMap-tail k v m h j = ground (arith, h j)

lookup-add_all :
    (extra : Map Str) (k : Str) (m : Map Str)
    → IsMap extra
    → lookup k (add_all extra m) ≡ or_else (lookup k extra) (lookup k m)
unfolding add_all lookup occurrences
lookup-add_all [] k m h = refl
lookup-add_all ((j, v) ∷ extra) k m h = ground (
  arith,
  lookup-add_all extra k (insert j v m) (IsMap-tail j v extra h),
  lookup-insert j k v m,
  lookup-absent k extra,
  str_eq_iff j k,
  h k,
)

-- The merged environment has each name at most once, and under it the override, or where there is none
-- the value of the last entry of the base that gives it one; an entry with no name gives none.
pub merged_lem :
    (base : List Str) (extra : Map Str)
    → IsMap extra
    → IsMap (merged base extra)
      × ((k : Str) → lookup k (merged base extra) ≡ or_else (lookup k extra) (last_given base k))
unfolding merged occurrences lookup
merged_lem base extra h = (
  add_all-IsMap extra (add_base base []) (add_base-IsMap base [] (λ k. omega arith)),
  λ k. rw (
    lookup-add_all extra k (add_base base []) h,
    lookup-add_base base k [],
    or_else-none (last_given base k),
  ),
)
