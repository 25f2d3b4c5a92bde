-- ===== src/Handles/Create.antt =====
-- `CreateHandle`: the scan for a free id.
use async.Base.{
  ℕ, zero, suc, ◌+◌, ◌-◌, ◌%◌, ◌^◌, ◌<◌, ◌≤◌, ◌≡◌, ◌≢◌, refl, sym, ap, ◌∙◌, true, false, List,
  Option, none, some, ◌==◌, if◌then◌else◌, arith, Bool-cases, inl, inr,
}
use async.Base.Tables.{find, is_some}
use async.Handles.{
  HandleType, Handle, HandleManager, scan, scan_fuel, enter_handle, enter_found, create_handle,
}

-- How many steps of the cursor lead from `a` to `b`.
abbrev pub ahead : ℕ → ℕ → ℕ
ahead a b = (b + 2 ^ 32 - a) % 2 ^ 32

-- The same, with a whole round from `a` to itself.
abbrev round : ℕ → ℕ → ℕ
round a b = if a == b then 2 ^ 32 else ahead a b

-- The id that is tried at a cursor.
abbrev pub tried : ℕ → ℕ
tried c = if c == 0 then 1 else c

abbrev pub after : ℕ → ℕ
after c = (tried c + 1) % 2 ^ 32

ahead-after :
    (c k : ℕ) → c < 2 ^ 32 → k < 2 ^ 32 → k ≢ 0 → k ≢ tried c → ahead (after c) k < ahead c k
ahead-after c k hc hk pos ne = ground arith

round-after :
    (c start k : ℕ)
    → c < 2 ^ 32
    → start < 2 ^ 32
    → k < 2 ^ 32
    → k ≢ 0
    → k ≢ tried c
    → ahead c k < round c start
    → (after c ≢ start) × (ahead (after c) k < round (after c) start)
round-after c start k hc hs hk pos ne h = (ground arith, ground arith)

module _ (used : List (ℕ × Handle)) where
  pub scan-step :
      (fuel start c : ℕ)
      → is_some (find (tried c) used) ≡ true
      → (after c == start) ≡ false
      → scan (suc fuel) start c used ≡ scan fuel start (after c) used
  unfolding scan
  scan-step fuel start c busy on = rw (busy, on)

  pub scan-stop :
      (fuel start c : ℕ)
      → is_some (find (tried c) used) ≡ false
      → scan (suc fuel) start c used ≡ some (tried c)
  unfolding scan
  scan-stop fuel start c free = rw free

  -- The id that a scan returns is free.
  abbrev pub IsFree : ℕ → Type 0
  IsFree id = (id ≢ 0) × (id < 2 ^ 32) × (find id used ≡ none)

  pub is_some-false : (o : Option Handle) → is_some o ≡ false → o ≡ none
  is_some-false none h = refl
  is_some-false (some a) h = cc

  -- Where an id is free, the scan from the cursor reaches one before it is back at its start.
  pub scan_finds :
      (fuel start c k : ℕ)
      → start < 2 ^ 32
      → c < 2 ^ 32
      → IsFree k
      → ahead c k < fuel
      → ahead c k < round c start
      → (id : ℕ) × (scan fuel start c used ≡ some id) × IsFree id
  scan_finds zero start c k hs hc free enough near = absurd (omega arith)
  scan_finds (suc fuel) start c k hs hc free enough near =
      elim (Bool-cases (is_some (find (tried c) used))) [
        | inr idle ↦ (
          tried c,
          scan-stop fuel start c idle,
          (ground arith, ground arith, is_some-false (find (tried c) used) idle),
        )
        | inl busy ↦
            let other : k ≢ tried c = λ e. let there = rw (← e) at busy in cc (free.2, there) in
            let (on, near') = round-after c start k hc hs free.1 free.0 other near in
            let fewer = ahead-after c k hc free.1 free.0 other in
            let (id, done, good) =
              scan_finds fuel start (after c) k hs (omega arith) free (omega arith) near' in
            (id, scan-step fuel start c busy (ground arith) ∙ done, good)
      ]

  -- Every id that the cursor passes on the way to the one returned is in use.
  pub scan_passes :
      (fuel start c id j : ℕ)
      → c < 2 ^ 32
      → scan fuel start c used ≡ some id
      → id ≢ 0
      → j ≢ 0
      → j < 2 ^ 32
      → id < 2 ^ 32
      → ahead c j < ahead c id
      → is_some (find j used) ≡ true
  scan_passes zero start c id j hc e ne nej hj hid before = unfold scan in cc e
  scan_passes (suc fuel) start c id j hc e ne nej hj hid before =
      elim (Bool-cases (is_some (find (tried c) used))) [
        | inr idle ↦
            let same = sym e ∙ scan-stop fuel start c idle in
            let here : id ≡ tried c = cc same in absurd (ground arith)
        | inl busy ↦ elim (Bool-cases (after c == start)) [
          | inl back ↦
              unfold scan in
              let gone = rw (busy, back) at e in
              let none_left : id ≡ 0 = cc gone in absurd (ne none_left)
          | inr on ↦
              let rest = sym (scan-step fuel start c busy on) ∙ e in
              elim (Bool-cases (j == tried c)) [
                | inl here ↦ let same : j ≡ tried c = ground arith in rw same busy
                | inr there ↦
                    scan_passes fuel start (after c) id j (omega arith) rest ne nej hj hid
                      (ground arith)
              ]
        ]
      ]

  round-back :
      (c start : ℕ)
      → c < 2 ^ 32
      → start < 2 ^ 32
      → start ≢ 1
      → after c ≢ start
      → round (after c) start < round c start
  round-back c start hc hs ne on = ground arith

  -- Where every id is in use, the cursor comes back to a start other than 1.
  pub scan_full :
      (fuel start c : ℕ)
      → start < 2 ^ 32
      → start ≢ 1
      → c < 2 ^ 32
      → ((id : ℕ) → id ≢ 0 → id < 2 ^ 32 → is_some (find id used) ≡ true)
      → round c start ≤ fuel
      → scan fuel start c used ≡ some 0
  scan_full zero start c hs ne hc full enough = absurd (ground arith)
  scan_full (suc fuel) start c hs ne hc full enough =
      let busy = full (tried c) (ground arith) (ground arith) in
      elim (Bool-cases (after c == start)) [
        | inl back ↦ unfold scan in rw (busy, back) refl
        | inr on ↦
            let nearer = round-back c start hc hs ne (ground arith) in
            scan-step fuel start c busy on
            ∙ scan_full fuel start (after c) hs ne (omega arith) full (omega arith)
      ]

-- With every id in use, `CreateHandle` returns 0 and leaves the table as it is. The cursor is not 1,
-- which it is only while no handle is in use.
pub create_handle_full :
    (pointer : ℕ) (t : HandleType) (owner : ℕ) (s : HandleManager)
    → s.next_handle < 2 ^ 32
    → s.next_handle ≢ 1
    → ((id : ℕ) → id ≢ 0 → id < 2 ^ 32 → is_some (find id s.used_handles) ≡ true)
    → create_handle pointer t owner s ≡ some (s, 0)
unfolding create_handle enter_handle
create_handle_full pointer t owner s small ne full =
    ap (λ o. enter_found pointer t owner o s)
      (scan_full s.used_handles scan_fuel s.next_handle s.next_handle small ne small full
        (ground arith))
