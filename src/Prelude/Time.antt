-- ===== src/Prelude/Time.antt =====
-- time.Time as nanoseconds since Go's zero time (January 1 of year 1, UTC), so that IsZero is 0.
-- A time.Duration is a signed number of nanoseconds.
use dappnode_nexus_sdk.Prelude.Tests.{leb, if◌then◌else◌}
use Prim.Native.Nat.{ℕ, zero, suc, ◌+◌, ◌-◌, ◌*◌}
use mathlib.Core.Bool.{Bool, true, false}

-- `negsuc n` is -(n + 1).
pub data ℤ : Type 0 where
  pos : ℕ → ℤ
  negsuc : ℕ → ℤ

abbrev pub Time : Type 0
Time = ℕ

abbrev pub Duration : Type 0
Duration = ℤ

abbrev pub millisecond : ℕ
millisecond = 1000000

abbrev pub second : ℕ
second = 1000000000

abbrev pub minute : ℕ
minute = 60 * second

-- The Unix epoch, 62135596800 seconds after the zero time.
abbrev pub unix_epoch : Time
unix_epoch = 62135596800 * second

-- time.UnixMilli at a timestamp that is not negative.
abbrev pub unix_milli : ℕ → Time
unix_milli ms = unix_epoch + ms * millisecond

-- t.Add(d). A sum before year 1 is taken to year 1.
abbrev pub add : Time → Duration → Time
add t (pos n) = t + n
add t (negsuc n) = t - suc n

abbrev pub neg : Duration → Duration
neg (pos zero) = pos zero
neg (pos (suc n)) = negsuc n
neg (negsuc n) = pos (suc n)

-- t.Sub(u), as a duration; Go saturates it at 292 years.
abbrev pub sub : Time → Time → Duration
sub t u = if leb u t then pos (t - u) else negsuc (u - t - 1)

abbrev pub is_nonpos : Duration → Bool
is_nonpos (pos zero) = true
is_nonpos (pos (suc n)) = false
is_nonpos (negsuc n) = true

abbrev pub is_neg : Duration → Bool
is_neg (pos n) = false
is_neg (negsuc n) = true
