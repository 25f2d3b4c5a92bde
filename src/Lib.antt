-- ===== src/Lib.antt =====
-- async2: a SourceMod extension (C++) that gives plugins HTTP, WebSocket, TCP and UDP, and JSON-like
-- data. This library models the parts that carry its own logic and states what they promise.
--
-- The parts and how they meet. Plugins hold integer handles; the handle manager
-- (src/handle_manager.cpp) turns them into objects and owns these. A data handle
-- (src/data/data_handle.cpp) is the typed view of a node (src/data/data_node.cpp), which it reads and
-- changes; an iterator (src/data/data_iterator.cpp) walks over the entries of a node. A linked list
-- (src/linked_list.cpp) is an object of its own kind. Nodes are
-- written as JSON (src/data/data_node.cpp) and as MessagePack (src/msgpack), and read from
-- MessagePack. The natives, which pass SourcePawn's arguments to these, and the event loop, which
-- drives the network libraries, are not modelled.
--
-- The files. Names of functions are those of the source in snake case; each file says where its code
-- is.
--   Base.antt: what the others share: Boolean tests, lists, byte strings, `|` on disjoint bits, and
--     association lists with their laws (Base/Tables.antt).
--   Data.antt: `DataNode` of src/data/data_node.h, as trees, and Data/Maps.antt on insertion.
--   Nodes.antt: `DeepCopy` and `Equals`; Nodes/Objects.antt, IntMaps.antt and Arrays.antt: the
--     helpers `Obj*`, `IntMap*` and `Arr*`, on a node with its mutation counter and the nodes that it
--     gave to `Decref`. Copies, Merge and Owned (with
--     Weights) state what they do.
--   DataHandles.antt, with Getters, Setters, Casts and Serialize: src/data/data_handle.cpp. Laws
--     (with Members) states what getters find after setters. Casts holds what the casts of C++ between
--     `int64_t` and `double` do, which stand for no code of the repository but where they are called.
--   Iterators.antt: src/data/data_iterator.cpp, with Objects and IntMaps for the two kinds.
--   Json.antt: `DataSerializeJson`. Compress and Strings hold the descriptions of JSON that it is
--     compared with.
--   MsgPack/Write.antt: src/msgpack/msgpack_serialize.cpp. MsgPack/Reader.antt and Read.antt:
--     src/msgpack/msgpack_parse.cpp, where a read behind the end of the input is an outcome of its
--     own. RoundTrip and Sound state what they do together.
--   Handles.antt: src/handle_manager.cpp, with the invariant of its two tables, the steps that
--     callers can take (Reach), and what each operation does (Create, Fresh, Cursor, Take, Behave).
--   Headers.antt: src/header_map.h, the headers of a request under their case-insensitive names, and
--     the lines that are sent. Keys, Laws and Sorted state what they do.
--   Hjson.antt: src/hjson/hjson_parse.cpp, the parser of HJSON. Scan has the scalar scanners, Avx2
--     those with 32-byte registers, Comments, Returns and Reader what is skipped, Strings, Keys,
--     Numbers and Values the parts of a text, and Parse `HjsonParse`. Blocks compares the scanners,
--     and Content what is skipped with a reading one character at a time; Skips, Quoted, Scalars,
--     Unquoted and Members carry the postconditions (Ensures, Document) that Sound states;
--     ReadBack, Digits, Integers, Words, Starts, ReadItems, ReadFields and Again take the JSON that the
--     serializer writes through the parser, from its strings up to the document.
--   LinkedLists.antt and LinkedLists/Queries.antt: src/linked_list.cpp, on a heap with a table for each
--     field of a node. Ring has the ring of addresses, Steps what the two pointer operations do to
--     it, Entries and Holds what ties the ring, the ids and the map together; Pushes, Removes, Pops, Moves,
--     Answers and Copies treat the operations, and Refine joins them.
--   Hex.antt: `HexEncode` and `HexDecode` of src/natives_crypto.cpp.
--
-- Abstractions. An `int64_t` and a `double` are their bit patterns, below 2 ^ 64; a `char` is a
-- number. A hash map is the list of its entries in iteration order, with distinct keys and a new key
-- at the end; the order that the library's hash map really has is not modelled. A node is the tree
-- that hangs on it: sharing of children between handles, the atomic reference counts and the pool
-- are not modelled. What the C library does for "%.*g" and `strtod`, and what the machine gives for
-- a cast that C++ leaves undefined, are parameters.
--
-- Bounds and fuel. The decoder recurses on the levels of nesting that `kMaxDepth` leaves, 257 with
-- the scalar, and needs no fuel. The scan of `CreateHandle` has 2 ^ 32 steps, one for each id: a
-- table is never out of them, with an id to spare or, as the cursor is 1 only while no handle is
-- in use, without one. Nineteen digits are enough for "%lld".
-- The HJSON parser recurses on the 257 levels of depth; each of its loops runs on the length of the
-- text that is left plus one, as each round passes a character. `skip_ws` is a function without
-- fuel: it takes the reader out of its loop by the proof that the loop returns (Returns). Positions
-- in a text are below 2 ^ 31, so that the casts to `int` keep them.
pub mod Base
pub mod Data
pub mod MsgPack
pub mod Handles
pub mod Nodes
pub mod DataHandles
pub mod Json
pub mod Iterators
pub mod Headers
pub mod Hex
pub mod Hjson
pub mod LinkedLists
