-- ===== src/MsgPack/Integers.antt =====
-- The ten forms of an integer are read back.
use async.Base.{
  ℕ, suc, ◌-◌, ◌%◌, ◌^◌, ◌≤◌, ◌<◌, ◌≡◌, ap, ◌∙◌, ◌++◌, Bytes, arith, inl, inr, true, false,
  Bool-cases, ltb, leb,
}
use async.Data.{DataNode, int}
use async.MsgPack.Write.{write_u8, write_msgpack_int}
use async.MsgPack.Reader.{ok, Reader, pure}
use async.MsgPack.Read.{sign_extend, read_tagged, read_typed, read_node}
use async.MsgPack.Masks.{read_typed-fixint, read_typed-negative_fixint}
use async.MsgPack.Sized.{sized8, sized16, sized32, sized64, read_node_step}

module _ (max_elements d v : ℕ) (r : Bytes) where
  abbrev rec : Reader DataNode
  rec = read_node max_elements d

  abbrev GivenBack : Bytes → Type 0
  GivenBack bytes = read_node max_elements (suc d) (bytes ++ r) ≡ ok (int v) r

  same : {n : ℕ} → n ≡ v → ok (int n) r ≡ ok (int v) r
  same e = ap (λ n. ok (int n) r) e

  read_node-nonneg : v < 2 ^ 63 → GivenBack (write_msgpack_int v)
  unfolding write_msgpack_int write_u8 read_typed read_tagged
  read_node-nonneg h =
      let low : ltb v (2 ^ 63) ≡ true = ground arith in
      elim (Bool-cases (leb v 0x7f)) [
        | inl a ↦
            let e : v % 256 % 256 ≡ v = ground arith in
            rw (low, a, read_node_step, e)
              (rw (read_typed-fixint rec max_elements v (ground arith)))
        | inr a ↦ elim (Bool-cases (leb v 0xff)) [
          | inl b ↦
              rw (low, a, b, read_node_step)
                (sized8 (λ n. pure (int n)) (v % 256) r (omega arith) ∙ same (ground arith))
          | inr b ↦ elim (Bool-cases (leb v 0xffff)) [
            | inl c ↦
                rw (low, a, b, c, read_node_step)
                  (sized16 (λ n. pure (int n)) (v % 2 ^ 16) r (omega arith) ∙ same (ground arith))
            | inr c ↦ elim (Bool-cases (leb v 0xffff_ffff)) [
              | inl e ↦
                  rw (low, a, b, c, e, read_node_step)
                    (sized32 (λ n. pure (int n)) (v % 2 ^ 32) r (omega arith) ∙ same (ground arith))
              | inr e ↦
                  rw (low, a, b, c, e, read_node_step)
                    (sized64 (λ n. pure (int n)) v r (omega arith))
            ]
          ]
        ]
      ]

  read_node-neg : 2 ^ 63 ≤ v → v < 2 ^ 64 → GivenBack (write_msgpack_int v)
  unfolding write_msgpack_int write_u8 read_typed read_tagged sign_extend
  read_node-neg l h =
      let high : ltb v (2 ^ 63) ≡ false = ground arith in
      elim (Bool-cases (leb (2 ^ 64 - 32) v)) [
        | inl a ↦
            rw (high, a, read_node_step)
              (rw
                (read_typed-negative_fixint rec max_elements (v % 256 % 256) (ground arith)
                  (omega arith))
                (same (ground arith)))
        | inr a ↦ elim (Bool-cases (leb (2 ^ 64 - 128) v)) [
          | inl b ↦
              rw (high, a, b, read_node_step)
                (sized8 (extend (2 ^ 7)) (v % 256) r (omega arith) ∙ same (ground arith))
          | inr b ↦ elim (Bool-cases (leb (2 ^ 64 - 32768) v)) [
            | inl c ↦
                rw (high, a, b, c, read_node_step)
                  (sized16 (extend (2 ^ 15)) (v % 2 ^ 16) r (omega arith) ∙ same (ground arith))
            | inr c ↦ elim (Bool-cases (leb (2 ^ 64 - 2147483648) v)) [
              | inl e ↦
                  rw (high, a, b, c, e, read_node_step)
                    (sized32 (extend (2 ^ 31)) (v % 2 ^ 32) r (omega arith) ∙ same (ground arith))
              | inr e ↦ rw (high, a, b, c, e, read_node_step) (sized64 (λ n. pure (int n)) v r h)
            ]
          ]
        ]
      ]
    where
      extend : ℕ → ℕ → Reader DataNode
      extend half n = pure (int (sign_extend half n))

  -- Every `int64_t` is read back from the bytes written for it, whichever form was chosen.
  pub read_node-int : v < 2 ^ 64 → GivenBack (write_msgpack_int v)
  read_node-int h = elim (Bool-cases (ltb v (2 ^ 63))) [
    | inl a ↦ read_node-nonneg (ground arith)
    | inr a ↦ read_node-neg (ground arith) h
  ]
