-- ===== src/Common/Time.antt =====
-- `Instant` and `Duration`: nanoseconds, as unbounded numbers.
use Prim.Native.Nat.{ℕ, ◌*◌, ◌/◌, ◌-◌}

abbrev pub Instant : Type 0
Instant = ℕ

abbrev pub Duration : Type 0
Duration = ℕ

-- `Duration::from_secs`, `Duration::as_secs` and `Duration::from_millis`.
abbrev pub from_secs : ℕ → Duration
from_secs s = s * 1_000_000_000

abbrev pub as_secs : Duration → ℕ
as_secs d = d / 1_000_000_000

abbrev pub from_millis : ℕ → Duration
from_millis ms = ms * 1_000_000

-- `Instant::saturating_duration_since`: 0 where the other instant is later.
abbrev pub saturating_duration_since : Instant → Instant → Duration
saturating_duration_since t earlier = t - earlier
