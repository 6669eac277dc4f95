-- ===== src/Helpers/Map/Program.antt =====
-- bpf-helpers/src/map.rs: the helpers that answer with a status.
use rust_bpf.Prelude.{ℕ, ◌%◌, Result, ok, err, if◌then◌else◌}
use rust_bpf.Prelude.Int.{ℤ, is_negative, pos_part, u32_mod}
use rust_bpf.Helpers.Map.{MapDef}

-- `BPF_F_USER_STACK` of the kernel's header.
abbrev pub user_stack : ℕ
user_stack = 256

abbrev pub kernel_stack : ℕ
kernel_stack = 0

-- `stack_id`: the helper's status is the number of the stack unless it is negative.
unfoldable pub stack_id : (bpf_get_stackid : MapDef → ℕ → ℤ) → MapDef → (flag : ℕ) → Result ℤ ℕ
stack_id bpf_get_stackid def flag =
    let ret = bpf_get_stackid def flag in
    if is_negative ret then err ret else ok (pos_part ret % u32_mod)

-- `tail_call`, which goes on here only if the helper fails or does nothing.
unfoldable pub tail_call :
    (bpf_tail_call : MapDef → ℕ → ℤ) → MapDef → (index : ℕ) → Result ℤ (Unit {0})
tail_call bpf_tail_call def index =
    let ret = bpf_tail_call def index in if is_negative ret then err ret else ok tt
