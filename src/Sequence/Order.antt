-- ===== src/Sequence/Order.antt =====
-- Which of two sequence numbers, or of two order ids, is the more recent one.
use cobalt_rs.Common.{ℕ, ◌+◌, ◌-◌, ◌%◌, ◌/◌, ◌<◌, ◌≡◌, arith, Bool, ◌&&◌, ◌||◌, ltb, ◌==◌}
use cobalt_rs.Sequence.{seq_is_more_recent}
use cobalt_rs.MessageQueue.{order_is_more_recent}

-- How far `a` lies ahead of `b`, around a range of `n`.
abbrev pub ahead : ℕ → ℕ → ℕ → ℕ
ahead n a b = (a + n - b) % n

-- More recent by the distance: less than half the range ahead, or exactly half and the larger one.
abbrev pub ahead_by_half : ℕ → ℕ → ℕ → Bool
ahead_by_half n a b =
    ltb 0 (ahead n a b) && (ltb (ahead n a b) (n / 2) || (ahead n a b == n / 2 && ltb b a))

-- Both comparisons, of sequence numbers of packets and of order ids of messages, are the comparison
-- by the distance around their range, for numbers in their ranges.
pub more_recent-ahead :
    (a b x y : ℕ)
    → a < 256
    → b < 256
    → x < 4096
    → y < 4096
    → (seq_is_more_recent a b ≡ ahead_by_half 256 a b)
      × (order_is_more_recent x y ≡ ahead_by_half 4096 x y)
unfolding seq_is_more_recent order_is_more_recent
more_recent-ahead a b x y ha hb hx hy = (ground arith, ground arith)

-- Both comparisons are those of the unbounded counters that the numbers are taken of: where two counters
-- are less than half the range apart, the wrapped numbers compare as the counters do.
pub more_recent-unwrapped :
    (x y x' y' : ℕ)
    → x < y + 128
    → y < x + 128
    → x' < y' + 2048
    → y' < x' + 2048
    → (seq_is_more_recent (x % 256) (y % 256) ≡ ltb y x)
      × (order_is_more_recent (x' % 4096) (y' % 4096) ≡ ltb y' x')
unfolding seq_is_more_recent order_is_more_recent
more_recent-unwrapped x y x' y' h1 h2 h3 h4 = (ground arith, ground arith)
