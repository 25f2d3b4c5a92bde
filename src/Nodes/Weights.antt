-- ===== src/Nodes/Weights.antt =====
-- How often nodes stand in a container and among the nodes given to `Decref`.
use async.Base.{
  ℕ, zero, suc, ◌+◌, ◌≡◌, refl, List, [], ◌∷◌, Option, none, some, ◌==◌, arith, Bool-cases, inl,
  inr, Bytes, bytes_eq,
}
use async.Data.{
  DataNode, Items, Fields, Entries, no_items, item, no_fields, field, no_entries, entry, put_field,
  put_entry,
}
use async.Nodes.{find_field, find_entry}
use async.Nodes.Objects.{lost, erase_field, drop_fields}
use async.Nodes.IntMaps.{erase_entry, drop_entries}
use async.Nodes.Arrays.{item_at, erase_item, set_item, drop_items}

-- Sums of a weight over the children of a node and over the nodes given to `Decref`: for the weight
-- that is 1 on one node and 0 on all others, how often it is there.
module _ (w : DataNode → ℕ) where
  unfoldable pub weigh_items : Items → ℕ
  weigh_items no_items = 0
  weigh_items (item v xs) = w v + weigh_items xs

  unfoldable pub weigh_fields : Fields → ℕ
  weigh_fields no_fields = 0
  weigh_fields (field k v fs) = w v + weigh_fields fs

  unfoldable pub weigh_entries : Entries → ℕ
  weigh_entries no_entries = 0
  weigh_entries (entry k v es) = w v + weigh_entries es

  unfoldable pub weigh_all : List DataNode → ℕ
  weigh_all [] = 0
  weigh_all (v ∷ vs) = w v + weigh_all vs

  abbrev pub weigh_found : Option DataNode → ℕ
  weigh_found none = 0
  weigh_found (some v) = w v

  pub weigh_fields-put :
      (k : Bytes) (v : DataNode) (fs : Fields)
      → weigh_fields (put_field k v fs) + weigh_found (find_field k fs) ≡ weigh_fields fs + w v
  unfolding weigh_fields put_field find_field
  weigh_fields-put k v no_fields = omega arith
  weigh_fields-put k v (field j u fs) = elim (Bool-cases (bytes_eq j k)) [
    | inl e ↦ rw e (omega arith)
    | inr e ↦ rw e (omega (arith, weigh_fields-put k v fs))
  ]

  pub weigh_entries-put :
      (k : ℕ) (v : DataNode) (es : Entries)
      → weigh_entries (put_entry k v es) + weigh_found (find_entry k es) ≡ weigh_entries es + w v
  unfolding weigh_entries put_entry find_entry
  weigh_entries-put k v no_entries = omega arith
  weigh_entries-put k v (entry j u es) = elim (Bool-cases (j == k)) [
    | inl e ↦ rw e (omega arith)
    | inr e ↦ rw e (omega (arith, weigh_entries-put k v es))
  ]

  pub weigh_fields-erase :
      (k : Bytes) (fs : Fields)
      → weigh_fields (erase_field k fs) + weigh_found (find_field k fs) ≡ weigh_fields fs
  unfolding weigh_fields erase_field find_field
  weigh_fields-erase k no_fields = refl
  weigh_fields-erase k (field j u fs) = elim (Bool-cases (bytes_eq j k)) [
    | inl e ↦ rw e (omega arith)
    | inr e ↦ rw e (omega (arith, weigh_fields-erase k fs))
  ]

  pub weigh_entries-erase :
      (k : ℕ) (es : Entries)
      → weigh_entries (erase_entry k es) + weigh_found (find_entry k es) ≡ weigh_entries es
  unfolding weigh_entries erase_entry find_entry
  weigh_entries-erase k no_entries = refl
  weigh_entries-erase k (entry j u es) = elim (Bool-cases (j == k)) [
    | inl e ↦ rw e (omega arith)
    | inr e ↦ rw e (omega (arith, weigh_entries-erase k es))
  ]

  pub weigh_items-set :
      (i : ℕ) (v u : DataNode) (xs : Items)
      → item_at i xs ≡ some u
      → weigh_items (set_item i v xs) + w u ≡ weigh_items xs + w v
  unfolding weigh_items set_item item_at
  weigh_items-set i v u no_items e = cc e
  weigh_items-set zero v u (item x xs) e = let same : x ≡ u = cc e in rw same (omega arith)
  weigh_items-set (suc i) v u (item x xs) e = omega (arith, weigh_items-set i v u xs e)

  pub weigh_items-erase :
      (i : ℕ) (u : DataNode) (xs : Items)
      → item_at i xs ≡ some u
      → weigh_items (erase_item i xs) + w u ≡ weigh_items xs
  unfolding weigh_items erase_item item_at
  weigh_items-erase i u no_items e = cc e
  weigh_items-erase zero u (item x xs) e = let same : x ≡ u = cc e in rw same (omega arith)
  weigh_items-erase (suc i) u (item x xs) e = omega (arith, weigh_items-erase i u xs e)

  pub weigh_all-drop_fields :
      (fs : Fields) (dropped : List DataNode)
      → weigh_all (drop_fields fs dropped) ≡ weigh_fields fs + weigh_all dropped
  unfolding weigh_all drop_fields weigh_fields
  weigh_all-drop_fields no_fields dropped = omega arith
  weigh_all-drop_fields (field k v fs) dropped =
      omega (arith, weigh_all-drop_fields fs (v ∷ dropped))

  pub weigh_all-drop_entries :
      (es : Entries) (dropped : List DataNode)
      → weigh_all (drop_entries es dropped) ≡ weigh_entries es + weigh_all dropped
  unfolding weigh_all drop_entries weigh_entries
  weigh_all-drop_entries no_entries dropped = omega arith
  weigh_all-drop_entries (entry k v es) dropped =
      omega (arith, weigh_all-drop_entries es (v ∷ dropped))

  pub weigh_all-drop_items :
      (xs : Items) (dropped : List DataNode)
      → weigh_all (drop_items xs dropped) ≡ weigh_items xs + weigh_all dropped
  unfolding weigh_all drop_items weigh_items
  weigh_all-drop_items no_items dropped = omega arith
  weigh_all-drop_items (item v xs) dropped = omega (arith, weigh_all-drop_items xs (v ∷ dropped))

  pub weigh_all-lost :
      (o : Option DataNode) (dropped : List DataNode)
      → weigh_all (lost o dropped) ≡ weigh_found o + weigh_all dropped
  unfolding weigh_all
  weigh_all-lost none dropped = omega arith
  weigh_all-lost (some v) dropped = refl
