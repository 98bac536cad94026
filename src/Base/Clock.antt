-- ===== src/Base/Clock.antt =====
-- Times are microseconds since the epoch. The kernel's handshake times are whole seconds.
use Prim.Native.Nat.{ℕ, ◌*◌, ◌+◌}
use mathlib.Core.Bool.{Bool}
use wireguard_p2p.Base.Tests.{leb, ltb}

abbrev pub seconds : ℕ → ℕ
seconds n = n * 1000000

-- `now - then <= age`
abbrev pub within : ℕ → ℕ → ℕ → Bool
within now then_ age = leb now (then_ + age)

-- `now - then > age`
abbrev pub older : ℕ → ℕ → ℕ → Bool
older now then_ age = ltb (then_ + age) now
