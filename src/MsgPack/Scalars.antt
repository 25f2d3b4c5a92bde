-- ===== src/MsgPack/Scalars.antt =====
-- What the encoder writes for a scalar, and for the header of a container, is read back.
use async.Base.{
  ℕ, suc, ◌+◌, ◌%◌, ◌^◌, ◌<◌, ◌≡◌, refl, ◌∙◌, ◌++◌, Bytes, bit_or, bit_or-shift, length, arith,
  append_assoc, inl, inr, Bool-cases, leb,
}
use async.Data.{DataNode, float, string, binary}
use async.MsgPack.Write.{
  write_u8, write_f64, write_msgpack_str, write_msgpack_map_header, write_array_header,
  write_binary,
}
use async.MsgPack.Reader.{ok, Reader, pure}
use async.MsgPack.Read.{
  read_map, read_array, read_str, read_bin, read_tagged, read_typed, read_node,
}
use async.MsgPack.Masks.{read_typed-fixmap, read_typed-fixarray, read_typed-fixstr}
use async.MsgPack.Sized.{
  sized8, sized16, sized32, sized64, read_str-append, read_bin-append, read_node_step,
}

-- A type byte that holds a small number in its low bits.
pub tag_a0 : (n : ℕ) → n < 32 → bit_or 0xa0 (n % 256) % 256 ≡ 160 + n
tag_a0 n h =
    let small : n % 256 ≡ n = omega arith in
    rw small (omega (arith, bit_or-shift 5 5 n (omega arith)))

tag_80 : (n : ℕ) → n < 16 → bit_or 0x80 (n % 256) % 256 ≡ 128 + n
tag_80 n h =
    let small : n % 256 ≡ n = omega arith in
    rw small (omega (arith, bit_or-shift 4 8 n (omega arith)))

tag_90 : (n : ℕ) → n < 16 → bit_or 0x90 (n % 256) % 256 ≡ 144 + n
tag_90 n h =
    let small : n % 256 ≡ n = omega arith in
    rw small (omega (arith, bit_or-shift 4 9 n (omega arith)))

-- The four forms of a string header, the three of a binary one, and those of the containers.
module _ (max_elements d : ℕ) where
  abbrev rec : Reader DataNode
  rec = read_node max_elements d

  pub read_node-str :
      (s r : Bytes)
      → length s < 2 ^ 32
      → read_node max_elements (suc d) (write_msgpack_str s ++ r) ≡ ok (string s) r
  unfolding write_msgpack_str write_u8 read_typed read_tagged
  read_node-str s r h = elim (Bool-cases (leb (length s) 31)) [
    | inl a ↦
        rw (a, read_node_step, tag_a0 (length s) (ground arith))
          (rw (read_typed-fixstr rec max_elements (length s) (ground arith))
            (read_str-append rec max_elements s r (length s) refl))
    | inr a ↦ elim (Bool-cases (leb (length s) 0xff)) [
      | inl b ↦
          rw (a, b, read_node_step)
            (sized8 str (length s % 256) (s ++ r) (omega arith)
              ∙ at (length s % 256) (ground arith))
      | inr b ↦ elim (Bool-cases (leb (length s) 0xffff)) [
        | inl c ↦
            rw (a, b, c, append_assoc, read_node_step)
              (sized16 str (length s % 2 ^ 16) (s ++ r) (omega arith)
                ∙ at (length s % 2 ^ 16) (ground arith))
        | inr c ↦
            rw (a, b, c, append_assoc, read_node_step)
              (sized32 str (length s % 2 ^ 32) (s ++ r) (omega arith)
                ∙ at (length s % 2 ^ 32) (ground arith))
      ]
    ]
  ]
    where
      str : ℕ → Reader DataNode
      str = read_str rec max_elements

      at : (n : ℕ) → n ≡ length s → read_str rec max_elements n (s ++ r) ≡ ok (string s) r
      at = read_str-append rec max_elements s r

  pub read_node-bin :
      (s r : Bytes)
      → length s < 2 ^ 32
      → read_node max_elements (suc d) (write_binary s ++ r) ≡ ok (binary s) r
  unfolding write_binary write_u8 read_typed read_tagged
  read_node-bin s r h = elim (Bool-cases (leb (length s) 0xff)) [
    | inl a ↦
        rw (a, read_node_step)
          (sized8 bin (length s % 256) (s ++ r) (omega arith) ∙ at (length s % 256) (ground arith))
    | inr a ↦ elim (Bool-cases (leb (length s) 0xffff)) [
      | inl b ↦
          rw (a, b, append_assoc, read_node_step)
            (sized16 bin (length s % 2 ^ 16) (s ++ r) (omega arith)
              ∙ at (length s % 2 ^ 16) (ground arith))
      | inr b ↦
          rw (a, b, append_assoc, read_node_step)
            (sized32 bin (length s % 2 ^ 32) (s ++ r) (omega arith)
              ∙ at (length s % 2 ^ 32) (ground arith))
    ]
  ]
    where
      bin : ℕ → Reader DataNode
      bin = read_bin rec max_elements

      at : (n : ℕ) → n ≡ length s → read_bin rec max_elements n (s ++ r) ≡ ok (binary s) r
      at = read_bin-append rec max_elements s r

  pub read_node-array_header :
      (n : ℕ) (r : Bytes)
      → n < 2 ^ 32
      → read_node max_elements (suc d) (write_array_header n ++ r) ≡ read_array rec max_elements n r
  unfolding write_array_header write_u8 read_typed read_tagged
  read_node-array_header n r h = elim (Bool-cases (leb n 15)) [
    | inl a ↦
        rw (a, read_node_step, tag_90 n (ground arith))
          (rw (read_typed-fixarray rec max_elements n (ground arith)))
    | inr a ↦ elim (Bool-cases (leb n 0xffff)) [
      | inl b ↦
          let e : n % 2 ^ 16 ≡ n = ground arith in
          rw (a, b, read_node_step, e) (sized16 (read_array rec max_elements) n r (ground arith))
      | inr b ↦
          let e : n % 2 ^ 32 ≡ n = omega arith in
          rw (a, b, read_node_step, e) (sized32 (read_array rec max_elements) n r h)
    ]
  ]

  pub read_node-map_header :
      (n : ℕ) (r : Bytes)
      → n < 2 ^ 32
      → read_node max_elements (suc d) (write_msgpack_map_header n ++ r)
        ≡ read_map rec max_elements n r
  unfolding write_msgpack_map_header write_u8 read_typed read_tagged
  read_node-map_header n r h = elim (Bool-cases (leb n 15)) [
    | inl a ↦
        rw (a, read_node_step, tag_80 n (ground arith))
          (rw (read_typed-fixmap rec max_elements n (ground arith)))
    | inr a ↦ elim (Bool-cases (leb n 0xffff)) [
      | inl b ↦
          let e : n % 2 ^ 16 ≡ n = ground arith in
          rw (a, b, read_node_step, e) (sized16 (read_map rec max_elements) n r (ground arith))
      | inr b ↦
          let e : n % 2 ^ 32 ≡ n = omega arith in
          rw (a, b, read_node_step, e) (sized32 (read_map rec max_elements) n r h)
    ]
  ]

  pub read_node-float :
      (v : ℕ) (r : Bytes)
      → v < 2 ^ 64
      → read_node max_elements (suc d) (write_u8 0xcb ++ (write_f64 v ++ r)) ≡ ok (float v) r
  unfolding write_u8 write_f64 read_typed read_tagged
  read_node-float v r h = rw read_node_step (sized64 (λ n. pure (float n)) v r h)
