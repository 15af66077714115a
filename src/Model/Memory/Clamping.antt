-- ===== src/Model/Memory/Clamping.antt =====
-- The differences of 64-bit counters, independently of how they are computed.
use oida.Prelude.{if◌then◌else◌, ℤ, pos, negsuc, sub_ℕ, ltb_ℤ, ℕ, ◌≡◌, arith}
use oida.Model.Memory.{max_int64, signed_delta}

-- The integer as near to `x` as an int64 can be.
abbrev clamp_int64 : ℤ → ℤ
clamp_int64 x =
    if ltb_ℤ (pos max_int64) x
    then pos max_int64
    else if ltb_ℤ x (negsuc max_int64)
    then negsuc max_int64
    else x

-- The signed difference of two counters is their exact difference, brought into the range of an
-- int64.
signed_delta-clamp_int64 :
    (after before : ℕ) → signed_delta after before ≡ clamp_int64 (sub_ℕ after before)
unfolding signed_delta sub_ℕ
signed_delta-clamp_int64 after before = ground arith
