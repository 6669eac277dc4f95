-- ===== src/Unwind/Agree.antt =====
-- cargo-trace/probe/src/main.rs beside bpf-backtrace/src/lib.rs: one step of the unwinding in both.
pub mod Stack
use rust_bpf.Prelude.{
  ℕ, zero, suc, ◌+◌, ◌-◌, ◌^◌, ◌≤◌, ◌<◌, ◌≡◌, ◌≢◌, ◌⊎◌, inl, inr, refl, sym, ap, ◌∙◌, List, [], ◌∷◌,
  ◌++◌, Option, none, some, arith, ◌==◌, ==_iff, true, false, length, get_elem?, get_or, set,
  replicate, All, Bool-cases, length-set,
}
use mathlib.Core.List.{map}
use mathlib.Core.Path.{subst}
use mathlib.Core.Option.{some-injective}
use rust_bpf.Unwind.Instruction.{Instruction, IsBuilt}
use rust_bpf.Unwind.Execute.{
  Memory, Executed, value, nothing, fault, execute, Encoded, encode, execute_encoded,
  execute_encoded-encode, seen,
}
use rust_bpf.Unwind.Search.{search_user, search_probe}
use rust_bpf.Unwind.Search.Rows.{search_probe-search_user}
use rust_bpf.Unwind.User.{
  UnwindMap, UnwindContext, Unwound, unwound, finished, crashed, unwind_context, run_row, set_cfa,
  set_rip,
}
use rust_bpf.Unwind.Probe.{
  Maps, next_frame, backtrace_loop, backtrace, with_rsp, with_cfa, max_stack_depth,
}

-- The arrays of the probe hold the table of user space in front, encoded, and its length.
pub record Holds (m : Maps) (t : UnwindMap) : Type 0 where
  pub starts : List ℕ
  pub rips : List Encoded
  pub rsps : List Encoded
  pub config_is : get_elem? m.config 0 ≡ some (length t.pc)
  pub pc_is : m.pc ≡ t.pc ++ starts
  pub rip_is : m.rip ≡ map encode t.rip ++ rips
  pub rsp_is : m.rsp ≡ map encode t.rsp ++ rsps
  pub many : 2 ≤ length t.pc
  pub fits : length t.pc ≤ 2 ^ 31
  pub built_rip : All IsBuilt t.rip
  pub built_rsp : All IsBuilt t.rsp

get_elem?-encode :
    (ts : List Instruction) (rest : List Encoded) (i : ℕ) {ins : Instruction}
    → get_elem? ts i ≡ some ins
    → get_elem? (map encode ts ++ rest) i ≡ some (encode ins)
get_elem?-encode [] rest i h = cc
get_elem?-encode (t ∷ ts) rest zero {ins} h = ap (λ x. some (encode x)) (some-injective t ins h)
get_elem?-encode (t ∷ ts) rest (suc i) h = get_elem?-encode ts rest i h

get_elem?-IsBuilt :
    (ts : List Instruction) (i : ℕ) {ins : Instruction}
    → All IsBuilt ts
    → get_elem? ts i ≡ some ins
    → IsBuilt ins
get_elem?-IsBuilt [] i b h = absurd (cc)
get_elem?-IsBuilt (t ∷ ts) zero {ins} b h = subst IsBuilt (some-injective t ins h) b.0
get_elem?-IsBuilt (t ∷ ts) (suc i) b h = get_elem?-IsBuilt ts i b.1 h

-- What a step of user space went through.
record Ran (mem : Memory) (c c' : UnwindContext) (oi os : Option Instruction) : Type 0 where
  irip : Instruction
  irsp : Instruction
  has_rip : oi ≡ some irip
  has_rsp : os ≡ some irsp
  cfa_is : execute mem irsp c.rip c.rsp 0 ≡ value c'.rsp
  rip_is :
      (execute mem irip c.rip c.rsp c'.rsp ≡ value c'.rip)
      ⊎ ((execute mem irip c.rip c.rsp c'.rsp ≡ nothing) × (c'.rip ≡ 0))
  same_map : c'.map ≡ c.map

unwound-injective : (a b : UnwindContext) → unwound a ≡ unwound b → a ≡ b
unwound-injective a b h = cc

set_rip-Ran :
    (mem : Memory) (c c' : UnwindContext) (i s : Instruction) (cfa : ℕ) (e : Executed)
    → execute mem s c.rip c.rsp 0 ≡ value cfa
    → execute mem i c.rip c.rsp cfa ≡ e
    → set_rip c cfa e ≡ unwound c'
    → Ran mem c c' (some i) (some s)
set_rip-Ran mem c c' i s cfa (value ip) hs hi h =
    subst (λ x. Ran mem c x (some i) (some s)) (unwound-injective _ c' h)
      (record {
        irip = i;
        irsp = s;
        has_rip = refl;
        has_rsp = refl;
        cfa_is = hs;
        rip_is = inl hi;
        same_map = refl;
      })
set_rip-Ran mem c c' i s cfa nothing hs hi h =
    subst (λ x. Ran mem c x (some i) (some s)) (unwound-injective _ c' h)
      (record {
        irip = i;
        irsp = s;
        has_rip = refl;
        has_rsp = refl;
        cfa_is = hs;
        rip_is = inr (hi, refl);
        same_map = refl;
      })
set_rip-Ran mem c c' i s cfa fault hs hi h = absurd (cc)

set_cfa-Ran :
    (mem : Memory) (c c' : UnwindContext) (i s : Instruction) (e : Executed)
    → execute mem s c.rip c.rsp 0 ≡ e
    → set_cfa mem c i e ≡ unwound c'
    → Ran mem c c' (some i) (some s)
set_cfa-Ran mem c c' i s (value cfa) hs h = set_rip-Ran mem c c' i s cfa _ hs refl h
set_cfa-Ran mem c c' i s nothing hs h = absurd (cc)
set_cfa-Ran mem c c' i s fault hs h = absurd (cc)

run_row-Ran :
    (mem : Memory) (c c' : UnwindContext) (oi os : Option Instruction)
    → run_row mem c oi os ≡ unwound c'
    → Ran mem c c' oi os
run_row-Ran mem c c' none os h = absurd (cc)
run_row-Ran mem c c' (some i) none h = absurd (cc)
run_row-Ran mem c c' (some i) (some s) h = set_cfa-Ran mem c c' i s _ refl h

unwind_context-Ran :
    (mem : Memory) (c c' : UnwindContext)
    → unwind_context mem c ≡ unwound c'
    → (c.rip == 0 ≡ false)
      × Ran mem c c'
          (get_elem? c.map.rip (search_user c.map.pc c.rip))
          (get_elem? c.map.rsp (search_user c.map.pc c.rip))
unfolding unwind_context
unwind_context-Ran mem c c' h = elim (Bool-cases (c.rip == 0)) [
  | inl end ↦ absurd (cc (rw (end, unwind_context) at h))
  | inr more ↦ (more, run_row-Ran mem c c' _ _ (rw (more, unwind_context) at h))
]

with_rsp-Ran :
    (mem : Memory) (c c' : UnwindContext) (i s : Instruction)
    → IsBuilt i
    → IsBuilt s
    → execute mem s c.rip c.rsp 0 ≡ value c'.rsp
    → ((execute mem i c.rip c.rsp c'.rsp ≡ value c'.rip)
        ⊎ ((execute mem i c.rip c.rsp c'.rsp ≡ nothing) × (c'.rip ≡ 0)))
    → with_rsp mem c.rip c.rsp (some (encode i)) (some (encode s)) ≡ some (c'.rip, c'.rsp)
with_rsp-Ran mem c c' i s bi bs hs hi =
    rw (execute_encoded-encode mem s c.rip c.rsp 0 bs ∙ ap seen hs) (next hi)
  where
    next :
        ((execute mem i c.rip c.rsp c'.rsp ≡ value c'.rip)
          ⊎ ((execute mem i c.rip c.rsp c'.rsp ≡ nothing) × (c'.rip ≡ 0)))
        → with_cfa mem c.rip c.rsp (some (encode i)) (some c'.rsp) ≡ some (c'.rip, c'.rsp)
    next (inl v) = rw (execute_encoded-encode mem i c.rip c.rsp c'.rsp bi ∙ ap seen v, with_cfa)
    next (inr (v, z)) =
        rw (execute_encoded-encode mem i c.rip c.rsp c'.rsp bi ∙ ap seen v, z, with_cfa)

-- One step: if the arrays hold the table and user space unwinds, the address was not zero, the
-- probe goes to the same registers, and the table stays the same.
pub next_frame-unwind_context :
    (mem : Memory) (m : Maps) (c c' : UnwindContext)
    → Holds m c.map
    → unwind_context mem c ≡ unwound c'
    → (c.rip == 0 ≡ false)
      × (next_frame mem m c.rip c.rsp ≡ some (c'.rip, c'.rsp))
      × (c'.map ≡ c.map)
unfolding next_frame
next_frame-unwind_context mem m c c' t h =
    let (more, r) = unwind_context-Ran mem c c' h in
    let i = search_user c.map.pc c.rip in
    let found : search_probe (get_elem? m.config 0) m.pc c.rip ≡ i =
      rw (t.config_is, t.pc_is) (search_probe-search_user c.map.pc t.starts c.rip t.many t.fits) in
    let rip_at : get_elem? m.rip i ≡ some (encode r.irip) =
      rw t.rip_is (get_elem?-encode c.map.rip t.rips i r.has_rip) in
    let rsp_at : get_elem? m.rsp i ≡ some (encode r.irsp) =
      rw t.rsp_is (get_elem?-encode c.map.rsp t.rsps i r.has_rsp) in
    (
      more,
      rw (found, rip_at, rsp_at)
          (with_rsp-Ran mem c c' r.irip r.irsp (get_elem?-IsBuilt c.map.rip i t.built_rip r.has_rip)
            (get_elem?-IsBuilt c.map.rsp i t.built_rsp r.has_rsp) r.cfa_is r.rip_is),
      r.same_map,
    )
