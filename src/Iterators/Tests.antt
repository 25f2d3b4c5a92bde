-- ===== src/Iterators/Tests.antt =====
-- Loops over small containers, and the theorems at concrete nodes.
use async.Base.{◌≡◌, refl, true, [], ◌∷◌, some, arith}
use async.Data.{
  Fields, Entries, int, object, int_map, no_fields, field, no_entries, entry, size_fields,
  size_entries,
}
use async.Nodes.{Node}
use async.Iterators.{create_object, create_int_map, over_object, over_int_map, fresh}
use async.Iterators.Objects.{collect_fields, collect_fields-create_object}
use async.Iterators.IntMaps.{collect_entries, collect_entries-create_int_map}

abbrev two_fields : Fields
two_fields = field (b'a' ∷ []) (int 1) (field (b'b' ∷ []) (int 2) no_fields)

abbrev two_entries : Entries
two_entries = entry 7 (int 1) (entry 9 (int 2) no_entries)

abbrev an_object : Node
an_object = record { value = object two_fields; version = 3; dropped = [] }

abbrev an_int_map : Node
an_int_map = record { value = int_map two_entries; version = 3; dropped = [] }

object_made : create_object (some an_object) ≡ some (fresh over_object 3)
unfolding create_object
object_made = refl

int_map_made : create_int_map (some an_int_map) ≡ some (fresh over_int_map 3)
unfolding create_int_map
int_map_made = refl

collect_fields_example : collect_fields 3 an_object (fresh over_object 3) ≡ (two_fields, true)
unfolding size_fields
collect_fields_example =
    collect_fields-create_object 3 an_object two_fields (fresh over_object 3) refl object_made
      (omega arith)

collect_entries_example : collect_entries 3 an_int_map (fresh over_int_map 3) ≡ (two_entries, true)
unfolding size_entries
collect_entries_example =
    collect_entries-create_int_map 3 an_int_map two_entries (fresh over_int_map 3) refl int_map_made
      (omega arith)
