-- ===== src/Data.antt =====
-- src/data/data_node.h and data_node.cpp: the values a `DataNode` holds. A tree of nodes is the
-- value that a const traversal sees. An `int64_t` is its bit pattern, below 2 ^ 64, and so is a
-- `double`. A `DataMap` is the list of its entries in iteration order, with distinct keys.
pub mod Maps
use async.Base.{ℕ, suc, Bool, Bytes, bytes_eq, ◌==◌, ◌||◌, true, false, if◌then◌else◌}

-- The union of `DataNode`, one constructor for each `DataType`, and the three containers.
mutual
  pub data DataNode : Type 0 where
    null : DataNode
    bool : Bool → DataNode
    int : ℕ → DataNode
    float : ℕ → DataNode
    string : Bytes → DataNode
    array : Items → DataNode
    object : Fields → DataNode
    int_map : Entries → DataNode
    binary : Bytes → DataNode

  pub data Items : Type 0 where
    no_items : Items
    item : DataNode → Items → Items

  pub data Fields : Type 0 where
    no_fields : Fields
    field : Bytes → DataNode → Fields → Fields

  pub data Entries : Type 0 where
    no_entries : Entries
    entry : ℕ → DataNode → Entries → Entries

-- `Arr().size()`, `Obj().size()` and `Intmap().size()`.
unfoldable pub size_items : Items → ℕ
size_items no_items = 0
size_items (item v xs) = suc (size_items xs)

unfoldable pub size_fields : Fields → ℕ
size_fields no_fields = 0
size_fields (field k v fs) = suc (size_fields fs)

unfoldable pub size_entries : Entries → ℕ
size_entries no_entries = 0
size_entries (entry k v es) = suc (size_entries es)

-- Whether a map holds a key.
unfoldable pub has_field : Bytes → Fields → Bool
has_field k no_fields = false
has_field k (field j v fs) = bytes_eq j k || has_field k fs

unfoldable pub has_entry : ℕ → Entries → Bool
has_entry k no_entries = false
has_entry k (entry j v es) = (j == k) || has_entry k es

-- `try_emplace`, and the replacement of the value of a key that is there.
unfoldable pub put_field : Bytes → DataNode → Fields → Fields
put_field k v no_fields = field k v no_fields
put_field k v (field j w fs) = if bytes_eq j k then field j v fs else field j w (put_field k v fs)

unfoldable pub put_entry : ℕ → DataNode → Entries → Entries
put_entry k v no_entries = entry k v no_entries
put_entry k v (entry j w es) = if j == k then entry j v es else entry j w (put_entry k v es)
