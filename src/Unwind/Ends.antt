-- ===== src/Unwind/Ends.antt =====
-- bpf-backtrace/src/lib.rs: walks that come to an end.
use mathlib.Core.Path.{subst}
use rust_bpf.Prelude.{
  ℕ, zero, suc, ◌+◌, ◌-◌, ◌^◌, ◌≤◌, ◌<◌, ◌≡◌, ◌⊎◌, inl, inr, refl, sym, Option, none, some,
  All-get_elem?, ◌==◌, ltb, ltb→lt, ltb-false→le, ==_iff, true, get_elem?, All, arith, Bool-cases,
}
use rust_bpf.Prelude.Int.{pos, negsuc, ◌+ℤ◌, as_i64, as_u64}
use rust_bpf.Unwind.Instruction.{Instruction, rsp, reg_offset, cfa_offset_by, undef, unimpl}
use rust_bpf.Unwind.Execute.{Memory, execute, execute_parts, offset_from, dereference}
use rust_bpf.Unwind.Search.{search_user}
use rust_bpf.Unwind.User.{
  UnwindContext, Unwound, unwound, finished, crashed, unwind_context, run_row, walk_frames, set_rip,
}

-- The walk is over, at the end of the stack or by a panic or a fault.
abbrev pub HasEnded : Unwound → Type 0
HasEnded (unwound c) = ⊥
HasEnded finished = Unit
HasEnded crashed = Unit

-- The frame is so many bytes above the stack pointer, at least one.
abbrev pub Grows : Instruction → Type 0
Grows ins = (z : ℕ) × (ins ≡ reg_offset rsp (pos z)) × (0 < z) × (z < 2 ^ 32)

-- The return address is below the frame, or is not known.
abbrev pub Returns : Instruction → Type 0
Returns ins = (ins ≡ cfa_offset_by (negsuc 7)) ⊎ (ins ≡ undef) ⊎ (ins ≡ unimpl)

offset_from-pos : (base z : ℕ) → base < 2 ^ 62 → z < 2 ^ 32 → offset_from base (pos z) ≡ base + z
unfolding offset_from ◌+ℤ◌ as_i64 as_u64
offset_from-pos base z h k = ground arith

offset_from-back : (base : ℕ) → 8 ≤ base → base < 2 ^ 63 → offset_from base (negsuc 7) ≡ base - 8
unfolding offset_from ◌+ℤ◌ as_i64 as_u64
offset_from-back base h k = ground arith

module _ (mem : Memory) (limit : ℕ) (small : limit < 2 ^ 61) where
  -- What one step may lead to: the end, a panic or a fault, or a frame further up.
  abbrev Climbs : UnwindContext → Unwound → Type 0
  Climbs c finished = Unit
  Climbs c crashed = Unit
  Climbs c (unwound c') = (c'.map ≡ c.map) × ((c'.rip ≡ 0) ⊎ ((c.rsp < c'.rsp) × (c'.rsp < limit)))

  module _ (c : UnwindContext) (unreadable : (a : ℕ) → limit ≤ a + 8 → mem a ≡ none)
      (low : c.rsp < limit) (eight : 8 ≤ limit) where
    loaded-Climbs :
        (cfa : ℕ) (found : Option ℕ)
        → c.rsp < cfa
        → cfa < 2 ^ 63
        → mem (offset_from cfa (negsuc 7)) ≡ found
        → Climbs c (set_rip c cfa (dereference found))
    loaded-Climbs cfa none above fits e = tt
    loaded-Climbs cfa (some w) above fits e = elim (Bool-cases (ltb cfa limit)) [
      | inl below ↦ (refl, inr (above, ltb→lt cfa limit below))
      | inr high ↦
          let le = ltb-false→le cfa limit high in
          let back = offset_from-back cfa (omega (arith, le, eight)) fits in
          absurd (cc (unreadable (offset_from cfa (negsuc 7)) (omega (arith, le, back)), e))
    ]

    run_row-Climbs :
        (irip irsp : Instruction)
        → Returns irip
        → Grows irsp
        → Climbs c (run_row mem c (some irip) (some irsp))
    unfolding execute execute_parts
    run_row-Climbs irip irsp returns (z, e, positive, short) =
        let cfa = offset_from-pos c.rsp z (omega (arith, low, small)) short in
        elim returns [
          | inl back ↦
              rw (e, back)
                (loaded-Climbs (offset_from c.rsp (pos z)) _ (omega (arith, cfa))
                  (omega (arith, cfa, low, small)) refl)
          | inr (inl unknown) ↦ rw (e, unknown) (refl, inl refl)
          | inr (inr unread) ↦ rw (e, unread) (refl, inl refl)
        ]

  -- Every row is one of these.
  abbrev AllRows : UnwindContext → Type 0
  AllRows c = All Returns c.map.rip × All Grows c.map.rsp

  found-Climbs :
      (c : UnwindContext) (orip orsp : Option Instruction)
      → ((a : ℕ) → limit ≤ a + 8 → mem a ≡ none)
      → c.rsp < limit
      → 8 ≤ limit
      → ((ins : Instruction) → orip ≡ some ins → Returns ins)
      → ((ins : Instruction) → orsp ≡ some ins → Grows ins)
      → Climbs c (run_row mem c orip orsp)
  found-Climbs c none orsp unreadable low eight returns grows = tt
  found-Climbs c (some irip) none unreadable low eight returns grows = tt
  found-Climbs c (some irip) (some irsp) unreadable low eight returns grows =
      run_row-Climbs c unreadable low eight irip irsp (returns irip refl) (grows irsp refl)

  unwind_context-Climbs :
      (c : UnwindContext)
      → ((a : ℕ) → limit ≤ a + 8 → mem a ≡ none)
      → c.rsp < limit
      → 8 ≤ limit
      → AllRows c
      → Climbs c (unwind_context mem c)
  unfolding unwind_context
  unwind_context-Climbs c unreadable low eight rows = elim (Bool-cases (c.rip == 0)) [
    | inl end ↦ rw (end, unwind_context) tt
    | inr more ↦
        let i = search_user c.map.pc c.rip in
        rw (more, unwind_context)
          (found-Climbs c (get_elem? c.map.rip i) (get_elem? c.map.rsp i) unreadable low eight
            (λ ins e. All-get_elem? Returns c.map.rip i rows.0 e)
            (λ ins e. All-get_elem? Grows c.map.rsp i rows.1 e))
  ]

  walk_frames_at_zero :
      (fuel : ℕ) (c : UnwindContext) → 0 < fuel → c.rip ≡ 0 → HasEnded (walk_frames mem fuel c).1
  unfolding walk_frames unwind_context
  walk_frames_at_zero zero c some_fuel e = absurd (omega (arith, some_fuel))
  walk_frames_at_zero (suc fuel) c some_fuel e =
      let end : (c.rip == 0) ≡ true = (==_iff c.rip 0).1 e in rw (end, walk_frames) tt

  -- A walk whose first step has led to `r`.
  walk_frames-step :
      (fuel : ℕ) (c : UnwindContext) (r : Unwound)
      → 0 < fuel
      → ((c' : UnwindContext)
          → c'.map ≡ c.map
          → c.rsp < c'.rsp
          → c'.rsp < limit
          → HasEnded (walk_frames mem fuel c').1)
      → unwind_context mem c ≡ r
      → Climbs c r
      → HasEnded (walk_frames mem (suc fuel) c).1
  unfolding walk_frames
  walk_frames-step fuel c finished some_fuel next e h = rw (e, walk_frames) tt
  walk_frames-step fuel c crashed some_fuel next e h = rw (e, walk_frames) tt
  walk_frames-step fuel c (unwound c') some_fuel next e (same, inl end) =
      rw (e, walk_frames) (walk_frames_at_zero fuel c' some_fuel end)
  walk_frames-step fuel c (unwound c') some_fuel next e (same, inr (up, below)) =
      rw (e, walk_frames) (next c' same up below)

  -- If every frame of the table has a size of at least one byte and below 2 ^ 32, the return
  -- address stands right below its upper end or is not known, and no word can be read that ends at
  -- a limit or behind it, where the limit is at least 8 and below 2 ^ 61, then the walk from a
  -- stack pointer below the limit ends, at the end of the stack or by a panic or a fault, within
  -- as many rounds as there are bytes from the stack pointer to the limit, and one.
  pub walk_frames-HasEnded :
      (fuel : ℕ) (c : UnwindContext)
      → ((a : ℕ) → limit ≤ a + 8 → mem a ≡ none)
      → 8 ≤ limit
      → c.rsp < limit
      → All Returns c.map.rip
      → All Grows c.map.rsp
      → limit + 1 ≤ c.rsp + fuel
      → HasEnded (walk_frames mem fuel c).1
  unfolding walk_frames
  walk_frames-HasEnded zero c unreadable eight low returns grows enough =
      absurd (omega (arith, low, enough))
  walk_frames-HasEnded (suc fuel) c unreadable eight low returns grows enough =
      walk_frames-step fuel c (unwind_context mem c) (omega (arith, low, enough))
        (λ c' same up below.
          walk_frames-HasEnded fuel c' unreadable eight below
            (subst (λ m. All Returns m.rip) (sym same) returns)
            (subst (λ m. All Grows m.rsp) (sym same) grows) (omega (arith, up, enough)))
        refl (unwind_context-Climbs c unreadable low eight (returns, grows))
