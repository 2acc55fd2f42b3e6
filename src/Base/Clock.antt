-- ===== src/Base/Clock.antt =====
-- Go's time: an instant and a duration are numbers of nanoseconds, and the clock's reading is an
-- argument of each operation.
use Prim.Native.Nat.{ℕ, ◌*◌}

abbrev pub second : ℕ
second = 1_000_000_000

abbrev pub minute : ℕ
minute = 60 * second

abbrev pub hour : ℕ
hour = 60 * minute
