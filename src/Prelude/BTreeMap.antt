-- ===== src/Prelude/BTreeMap.antt =====
-- `BTreeMap<String, String>`: the list of its entries, in the order of the keys. `==` on such maps
-- compares the two sequences of entries, so it is equality of the lists.
use Prim.Native.Nat.{Ordering}
use Prim.Native.String
use Prim.Native.String.{String}
use mathlib.Core.Path.{◌≡◌, refl}
use mathlib.Core.Bool.{Bool, true, false, ◌&&◌}
use mathlib.Core.Logic.{◌↔◌}
use mathlib.Core.Option.{Option, none, some}
use mathlib.Core.List.{List, [], ◌∷◌}
use native.Mathlib.Omega.{arith}
use text.Mathlib.Text.{◌==◌}
use text.Mathlib.TextEquality.{eq_iff, path_by_compare}
use k8s_operator_template.Prelude.Tests.{if◌then◌else◌}

abbrev pub BTreeMap : Type 0
BTreeMap = List (String × String)

-- `insert` replaces the value of a key that is there, and keeps the order of the keys.
unfoldable pub insert : String → String → BTreeMap → BTreeMap
insert k v [] = (k, v) ∷ []
insert k v ((j, w) ∷ m) =
    let rest = insert k v m in
    elim (String.compare k j) [
      | Ordering.lt ↦ (k, v) ∷ (j, w) ∷ m
      | Ordering.eq ↦ (k, v) ∷ m
      | Ordering.gt ↦ (j, w) ∷ rest
    ]

unfoldable pub get : String → BTreeMap → Option String
get k [] = none
get k ((j, w) ∷ m) = if j == k then some w else get k m

-- `for (key, value) in entries { map.insert(key, value) }`
unfoldable pub extend : BTreeMap → BTreeMap → BTreeMap
extend m [] = m
extend m ((k, v) ∷ entries) = extend (insert k v m) entries

unfoldable pub map_eq : BTreeMap → BTreeMap → Bool
map_eq [] [] = true
map_eq ((k, v) ∷ m) ((j, w) ∷ n) = (k == j) && (v == w) && map_eq m n
map_eq _ _ = false

pub map_eq_iff : (m n : BTreeMap) → (map_eq m n ≡ true) ↔ (m ≡ n)
unfolding map_eq
map_eq_iff [] [] = ground arith
map_eq_iff [] ((j, w) ∷ n) = ground arith
map_eq_iff ((k, v) ∷ m) [] = ground arith
map_eq_iff ((k, v) ∷ m) ((j, w) ∷ n) = ground (arith, eq_iff k j, eq_iff v w, map_eq_iff m n)

-- A read after a write, at every key.
pub get-insert :
    (k j v : String) (m : BTreeMap) → get j (insert k v m) ≡ (if k == j then some v else get j m)
unfolding insert get
get-insert k j v [] = refl
get-insert k j v ((i, w) ∷ m) =
    ground (arith, path_by_compare k i, get-insert k j v m, eq_iff k j, eq_iff i j, eq_iff k i)
