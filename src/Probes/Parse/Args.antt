-- ===== src/Probes/Parse/Args.antt =====
-- bpf-probes/src/parse.rs and lib.rs: the text behind the type of a probe, printed and parsed.
use rust_bpf.Prelude.{
  ℕ, ◌<◌, ◌≡◌, refl, List, get_elem?, [], ◌∷◌, ◌++◌, Option, none, some, arith, Lacks, All-append,
  ok, inl, inr, ltb, Bool-cases, append_assoc, append-nil,
}
use rust_bpf.Prelude.Int.{u64_mod}
use rust_bpf.Text.{Text, codes}
use rust_bpf.Text.Split.{
  splitn, rsplitn, splitn_pair, splitn_one, splitn_two, rsplitn_two, rsplitn_one,
}
use rust_bpf.Text.Number.{show_radix}
use rust_bpf.Text.Number.ReadShow.{show_radix-IsShown, from_str_radix-show_radix, IsShown-Lacks}
use rust_bpf.Probes.Software
use rust_bpf.Probes.Hardware
use rust_bpf.Probes.Duration.{as_millis-from_millis, as_micros-from_micros}
use rust_bpf.Probes.Events.{SoftwareEvent, HardwareEvent, Mode, show_mode, parse_mode}
use rust_bpf.Probes.Interval.{
  Interval, seconds, millis, micros, hz, show_interval, parse_u64, parse_interval, interval_of_unit,
}
use rust_bpf.Probes.Printable.{IsWhole}
use rust_bpf.Probes.Parse.{
  parse_offset, parse_count, trim_0x, parse_kprobe, parse_uprobe, parse_software, parse_hardware,
  parse_watchpoint,
}
use rust_bpf.Probes.Probe.{kprobe, uprobe, software, hardware, watchpoint, show_offset, show_path}

parse_u64-show_radix : (n : ℕ) → n < u64_mod → parse_u64 (show_radix 10 n) ≡ ok n
unfolding parse_u64
parse_u64-show_radix n h = rw (from_str_radix-show_radix 10 (omega arith) (omega arith) u64_mod n h)

decimal-Lacks_colon : (n : ℕ) → Lacks b':' (show_radix 10 n)
decimal-Lacks_colon n =
    IsShown-Lacks b':' _ (inr (inl refl)) (show_radix-IsShown 10 (omega arith) (omega arith) n)

hex-Lacks : (n : ℕ) → Lacks b':' (show_radix 16 n) × Lacks b'x' (show_radix 16 n)
hex-Lacks n =
    let shown = show_radix-IsShown 16 (omega arith) (omega arith) n in
    (IsShown-Lacks b':' _ (inr (inl refl)) shown, IsShown-Lacks b'x' _ (inr (inr refl)) shown)

trim_0x-Lacks : (s : Text) → Lacks b'x' s → trim_0x s ≡ s
unfolding trim_0x
trim_0x-Lacks [] h = refl
trim_0x-Lacks (c ∷ []) h = refl
trim_0x-Lacks (c ∷ d ∷ s) h = ground arith

-- Every access mode is read back from its text.
pub parse_mode-show_mode : (m : Mode) → parse_mode (show_mode m) ≡ ok m
unfolding parse_mode show_mode
parse_mode-show_mode m = ground arith

interval_of-splitn :
    (unit : Text) (n : ℕ)
    → Lacks b':' unit
    → n < u64_mod
    → parse_interval (unit ++ b':' ∷ show_radix 10 n) ≡ interval_of_unit unit n
unfolding parse_interval
interval_of-splitn unit n h k =
    rw (splitn_pair b':' unit (show_radix 10 n) h) (rw (parse_u64-show_radix n k))

-- An interval of whole units is read back from its text.
pub parse_interval-show_interval :
    (i : Interval) → IsWhole i → parse_interval (show_interval i) ≡ ok i
unfolding show_interval interval_of_unit
parse_interval-show_interval (hz f) h = interval_of-splitn (codes "hz") f (omega arith) h
parse_interval-show_interval (seconds d) (n, lt, e) =
    rw e (interval_of-splitn (codes "s") n (omega arith) lt)
parse_interval-show_interval (millis d) (n, lt, e) =
    rw (e, as_millis-from_millis n) (interval_of-splitn (codes "ms") n (omega arith) lt)
parse_interval-show_interval (micros d) (n, lt, e) =
    rw (e, as_micros-from_micros n) (interval_of-splitn (codes "us") n (omega arith) lt)

show_offset-Lacks_colon : (offset : ℕ) → Lacks b':' (show_offset offset)
unfolding show_offset
show_offset-Lacks_colon offset = elim (Bool-cases (ltb 0 offset)) [
  | inl more ↦ rw more (omega arith, decimal-Lacks_colon offset)
  | inr zero ↦ rw zero tt
]

-- A name with the offset behind it, as both kinds of probe with an offset write it.
splitn-show_offset :
    (symbol : Text) (offset : ℕ)
    → Lacks b'+' symbol
    → offset < u64_mod
    → (parts : List Text) × (splitn 2 b'+' (symbol ++ show_offset offset) ≡ symbol ∷ parts)
      × (parse_offset (get_elem? (symbol ∷ parts) 1) ≡ ok offset)
unfolding show_offset parse_offset
splitn-show_offset symbol offset h k = elim (Bool-cases (ltb 0 offset)) [
  | inl more ↦ (
    show_radix 10 offset ∷ [],
    rw more (splitn_pair b'+' symbol (show_radix 10 offset) h),
    parse_u64-show_radix offset k,
  )
  | inr zero ↦ ([], rw (zero, append-nil) (splitn_one b'+' 0 symbol h), ground arith)
]

-- A path in front of a name that has no colon, as three kinds of probe write it.
pub rsplitn-show_path :
    (path : Option Text) (name : Text)
    → Lacks b':' name
    → (rest : List Text) × (rsplitn 2 b':' (show_path path ++ name) ≡ name ∷ rest)
      × (get_elem? rest 0 ≡ path)
unfolding show_path
rsplitn-show_path none name h = ([], rsplitn_one b':' name h, refl)
rsplitn-show_path (some path) name h =
    (path ∷ [], rw append_assoc (rsplitn_two b':' path name h), refl)

pub parse_kprobe-show_args :
    (symbol : Text) (offset : ℕ)
    → Lacks b'+' symbol
    → offset < u64_mod
    → parse_kprobe (symbol ++ show_offset offset) ≡ ok (kprobe symbol offset)
unfolding parse_kprobe
parse_kprobe-show_args symbol offset h k =
    let (parts, split, read) = splitn-show_offset symbol offset h k in rw split (rw read)

pub parse_uprobe-show_args :
    (path : Option Text) (symbol : Text) (offset : ℕ)
    → Lacks b':' symbol
    → Lacks b'+' symbol
    → offset < u64_mod
    → parse_uprobe (show_path path ++ (symbol ++ show_offset offset))
      ≡ ok (uprobe path symbol offset)
unfolding parse_uprobe
parse_uprobe-show_args path symbol offset c h k =
    let (parts, split, read) = splitn-show_offset symbol offset h k in
    let (rest, rsplit, first) =
      rsplitn-show_path path (symbol ++ show_offset offset)
        (All-append _ symbol (show_offset offset) c (show_offset-Lacks_colon offset)) in
    rw rsplit (rw (split, first) (rw read))

pub parse_software-show_args :
    (e : SoftwareEvent) (c : ℕ)
    → c < u64_mod
    → parse_software (Software.name e ++ b':' ∷ show_radix 10 c) ≡ ok (software e (some c))
unfolding parse_software parse_count
parse_software-show_args e c h =
    rw (splitn_pair b':' (Software.name e) (show_radix 10 c) (Software.name-Lacks_colon e))
      (rw (Software.parse-name e) (rw (parse_u64-show_radix c h)))

pub parse_hardware-show_args :
    (e : HardwareEvent) (c : ℕ)
    → c < u64_mod
    → parse_hardware (Hardware.name e ++ b':' ∷ show_radix 10 c) ≡ ok (hardware e (some c))
unfolding parse_hardware parse_count
parse_hardware-show_args e c h =
    rw (splitn_pair b':' (Hardware.name e) (show_radix 10 c) (Hardware.name-Lacks_colon e))
      (rw (Hardware.parse-name e) (rw (parse_u64-show_radix c h)))

pub parse_watchpoint-show_args :
    (address length : ℕ) (mode : Mode)
    → address < u64_mod
    → length < u64_mod
    → parse_watchpoint
        (show_radix 16 address ++ b':' ∷ (show_radix 10 length ++ b':' ∷ show_mode mode))
      ≡ ok (watchpoint address length mode)
unfolding parse_watchpoint
parse_watchpoint-show_args address length mode h k =
    rw
      (
        splitn_two b':' 1 (show_radix 16 address) _ (hex-Lacks address).0,
        splitn_pair b':' (show_radix 10 length) (show_mode mode) (decimal-Lacks_colon length),
      )
      (rw (parse_u64-show_radix length k) (
        rw (parse_mode-show_mode mode) (
          rw (trim_0x-Lacks (show_radix 16 address) (hex-Lacks address).1)
            (rw (from_str_radix-show_radix 16 (omega arith) (omega arith) u64_mod address h)))))
