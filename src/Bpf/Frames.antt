-- ===== src/Bpf/Frames.antt =====
-- bpf/src/lib.rs: the frames of a stack that the kernel recorded.
use rust_bpf.Prelude.{
  ℕ, zero, suc, ◌≡◌, ◌≢◌, refl, ap, List, [], ◌∷◌, ◌++◌, ◌==◌, All, arith, false, if◌then◌else◌,
}

-- The list is empty or its first element is zero.
abbrev pub StartsWithZero : List ℕ → Type 0
StartsWithZero [] = Unit
StartsWithZero (ip ∷ ips) = ip ≡ 0

-- `BpfStackFrames::iter`: the addresses in front of the first zero.
unfoldable pub frames : List ℕ → List ℕ
frames [] = []
frames (ip ∷ ips) = let rest = frames ips in if ip == 0 then [] else ip ∷ rest

-- The frames are the addresses up to the first zero: none of them is zero, and behind them the
-- stack is at its end or goes on with a zero.
pub frames_split :
    (ips : List ℕ)
    → All (λ ip. ip ≢ 0) (frames ips)
      × (rest : List ℕ) × (ips ≡ frames ips ++ rest)
      × StartsWithZero rest
unfolding frames
frames_split [] = (tt, [], refl, tt)
frames_split (zero ∷ ips) = (tt, zero ∷ ips, refl, refl)
frames_split (suc ip ∷ ips) =
    let (nonzero, rest, e, z) = frames_split ips in
    let more : suc ip == 0 ≡ false = ground arith in
    rw (more, frames) ((omega arith, nonzero), rest, ap (λ xs. suc ip ∷ xs) e, z)
