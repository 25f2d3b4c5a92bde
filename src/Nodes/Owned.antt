-- ===== src/Nodes/Owned.antt =====
-- Ownership: a node that is handed to a container is its child until it is given to `Decref`, once.
use async.Base.{ℕ, ◌+◌, ◌≡◌, refl, ap, List, [], ◌∷◌, Option, none, some, arith, Bytes}
use async.Data.{DataNode, Items, Fields, Entries, array, object, int_map}
use async.Nodes.{Node, find_field, find_entry}
use async.Nodes.Objects.{erase_found, obj_insert, obj_erase, obj_clear}
use async.Nodes.IntMaps.{
  erase_found as erase_found_entry, int_map_insert, int_map_erase, int_map_clear,
}
use async.Nodes.Arrays.{item_at, remove_at, set_at, arr_remove, arr_set, arr_clear}
use async.Nodes.Weights.{
  weigh_items, weigh_fields, weigh_entries, weigh_all, weigh_found, weigh_fields-put,
  weigh_entries-put, weigh_fields-erase, weigh_entries-erase, weigh_items-set, weigh_items-erase,
  weigh_all-drop_fields, weigh_all-drop_entries, weigh_all-drop_items, weigh_all-lost,
}

-- The calls on a node that hand over nodes or give them up.
pub data Call : Type 0 where
  call_obj_insert : Bytes → DataNode → Call
  call_obj_erase : Bytes → Call
  call_obj_clear : Call
  call_int_map_insert : ℕ → DataNode → Call
  call_int_map_erase : ℕ → Call
  call_int_map_clear : Call
  call_arr_remove : ℕ → Call
  call_arr_set : ℕ → DataNode → Call
  call_arr_clear : Call

abbrev pub run : Call → Node → Node
run (call_obj_insert key val) n = obj_insert key val n
run (call_obj_erase key) n = (obj_erase key n).0
run call_obj_clear n = obj_clear n
run (call_int_map_insert key val) n = int_map_insert key val n
run (call_int_map_erase key) n = (int_map_erase key n).0
run call_int_map_clear n = int_map_clear n
run (call_arr_remove index) n = (arr_remove index n).0
run (call_arr_set index val) n = arr_set index val n
run call_arr_clear n = arr_clear n

abbrev pub run_all : List Call → Node → Node
run_all [] n = n
run_all (c ∷ cs) n = run_all cs (run c n)

module _ (w : DataNode → ℕ) where
  abbrev pub weigh_children : DataNode → ℕ
  weigh_children (array xs) = weigh_items w xs
  weigh_children (object fs) = weigh_fields w fs
  weigh_children (int_map es) = weigh_entries w es
  weigh_children _ = 0

  -- The children and the nodes given up.
  abbrev pub weigh : Node → ℕ
  weigh n = weigh_children n.value + weigh_all w n.dropped

  -- What a call hands over.
  abbrev pub given : Call → ℕ
  given (call_obj_insert key val) = w val
  given (call_int_map_insert key val) = w val
  given (call_arr_set index val) = w val
  given _ = 0

  abbrev pub given_all : List Call → ℕ
  given_all [] = 0
  given_all (c ∷ cs) = given c + given_all cs

  weigh-erase_found :
      (k : Bytes) (fs : Fields) (o : Option DataNode)
      → find_field k fs ≡ o
      → (version : ℕ) (dropped : List DataNode)
      → weigh
          (erase_found k fs o
            (record { value = object fs; version = version; dropped = dropped })).0
        ≡ weigh_fields w fs + weigh_all w dropped + 0
  unfolding weigh_all
  weigh-erase_found k fs none e version dropped = omega arith
  weigh-erase_found k fs (some v) e version dropped =
      omega (arith, weigh_fields-erase w k fs, ap (weigh_found w) e)

  weigh-erase_found_entry :
      (k : ℕ) (es : Entries) (o : Option DataNode)
      → find_entry k es ≡ o
      → (version : ℕ) (dropped : List DataNode)
      → weigh
          (erase_found_entry k es o
            (record { value = int_map es; version = version; dropped = dropped })).0
        ≡ weigh_entries w es + weigh_all w dropped + 0
  unfolding weigh_all
  weigh-erase_found_entry k es none e version dropped = omega arith
  weigh-erase_found_entry k es (some v) e version dropped =
      omega (arith, weigh_entries-erase w k es, ap (weigh_found w) e)

  weigh-remove_at :
      (i : ℕ) (xs : Items) (o : Option DataNode)
      → item_at i xs ≡ o
      → (version : ℕ) (dropped : List DataNode)
      → weigh
          (remove_at i xs o (record { value = array xs; version = version; dropped = dropped })).0
        ≡ weigh_items w xs + weigh_all w dropped + 0
  unfolding weigh_all
  weigh-remove_at i xs none e version dropped = omega arith
  weigh-remove_at i xs (some v) e version dropped = omega (arith, weigh_items-erase w i v xs e)

  weigh-set_at :
      (i : ℕ) (val : DataNode) (xs : Items) (o : Option DataNode)
      → item_at i xs ≡ o
      → (version : ℕ) (dropped : List DataNode)
      → weigh
          (set_at i val xs o (record { value = array xs; version = version; dropped = dropped }))
        ≡ weigh_items w xs + weigh_all w dropped + w val
  unfolding weigh_all
  weigh-set_at i val xs none e version dropped = omega arith
  weigh-set_at i val xs (some v) e version dropped = omega (arith, weigh_items-set w i val v xs e)

  run-weigh_lem :
      (c : Call) (v : DataNode) (version : ℕ) (dropped : List DataNode)
      → weigh (run c (record { value = v; version = version; dropped = dropped }))
        ≡ weigh_children v + weigh_all w dropped + given c
  unfolding obj_insert obj_erase obj_clear int_map_insert int_map_erase int_map_clear arr_remove
      arr_set arr_clear weigh_all weigh_fields weigh_entries weigh_items
  run-weigh_lem (call_obj_insert k val) (object fs) version dropped =
      omega (arith, weigh_fields-put w k val fs, weigh_all-lost w (find_field k fs) dropped)
  run-weigh_lem (call_obj_erase k) (object fs) version dropped =
      weigh-erase_found k fs (find_field k fs) refl version dropped
  run-weigh_lem call_obj_clear (object fs) version dropped =
      omega (arith, weigh_all-drop_fields w fs dropped)
  run-weigh_lem (call_int_map_insert k val) (int_map es) version dropped =
      omega (arith, weigh_entries-put w k val es, weigh_all-lost w (find_entry k es) dropped)
  run-weigh_lem (call_int_map_erase k) (int_map es) version dropped =
      weigh-erase_found_entry k es (find_entry k es) refl version dropped
  run-weigh_lem call_int_map_clear (int_map es) version dropped =
      omega (arith, weigh_all-drop_entries w es dropped)
  run-weigh_lem (call_arr_remove i) (array xs) version dropped =
      weigh-remove_at i xs (item_at i xs) refl version dropped
  run-weigh_lem (call_arr_set i val) (array xs) version dropped =
      weigh-set_at i val xs (item_at i xs) refl version dropped
  run-weigh_lem call_arr_clear (array xs) version dropped =
      omega (arith, weigh_all-drop_items w xs dropped)
  run-weigh_lem _ _ version dropped = omega arith

  -- After any calls, each node that was a child or was handed over is a child or was given to
  -- `Decref`, exactly as often: none is lost, and none is given up twice.
  pub run_all-weigh : (cs : List Call) (n : Node) → weigh (run_all cs n) ≡ weigh n + given_all cs
  run_all-weigh [] n = omega arith
  run_all-weigh (c ∷ cs) n =
      omega (arith, run_all-weigh cs (run c n), run-weigh_lem c n.value n.version n.dropped)
