-- ===== src/Prelude/Int64.antt =====
-- 64-bit signed integers by their bits, with the wrap-around written out.
use Prim.Native.Nat.{ℕ, ◌+◌, ◌-◌, ◌/◌, ◌%◌, ◌≤◌, ◌<◌}
use mathlib.Core.Path.{◌≡◌}
use mathlib.Core.Bool.{Bool, true, false}
use native.Mathlib.Omega.{arith}
use majula.Prelude.Tests.{ltb, leb, if◌then◌else◌}

-- An int64 is the number of its 64 bits, from 2^63 on a negative one. Sums wrap, and comparison and
-- division are those of signed numbers.
abbrev pub wrap : ℕ → ℕ
wrap n = n % 18446744073709551616

abbrev pub leb_int64 : ℕ → ℕ → Bool
leb_int64 a b = leb (wrap (a + 9223372036854775808)) (wrap (b + 9223372036854775808))

unfoldable pub quot_int64 : ℕ → ℕ → ℕ
quot_int64 n k =
    if ltb n 9223372036854775808
    then n / k
    else wrap (18446744073709551616 - (18446744073709551616 - n) / k)

-- A time that has come, and one that has not.
pub leb_int64_due :
    (time now : ℕ) → time ≤ now → now < 9223372036854775808 → leb_int64 time now ≡ true
leb_int64_due time now h room = ground arith

pub leb_int64_early :
    (time now : ℕ) → now < time → time < 9223372036854775808 → leb_int64 time now ≡ false
leb_int64_early time now h room = ground arith
