-- ===== src/Ratelimit.antt =====
-- internal/ratelimit/limiter.go: `MemoryLimiter`. A window is not negative; a zero time is 0.
pub mod Window
use fulfillhub_go_commerce_p.Prelude.{
  ℕ, ◌+◌, leb, ◌==◌, String, Bool, not, ◌||◌, if◌then◌else◌, get_or,
}
use fulfillhub_go_commerce_p.Prelude.Int64.{Int64, add, less}
use fulfillhub_go_commerce_p.Dict
use fulfillhub_go_commerce_p.Dict.{Dict}
use fulfillhub_go_commerce_p.Commerce.Model.{Time}

pub record Bucket : Type 0 where
  pub count : Int64
  pub reset : Time

pub record MemoryLimiter : Type 0 where
  pub limit : Int64
  pub window : Time
  pub buckets : Dict Bucket

unfoldable pub new_memory_limiter : Int64 → Time → MemoryLimiter
new_memory_limiter limit window = record { limit = limit; window = window; buckets = Dict.empty }

-- A missing key reads as the zero bucket.
abbrev pub bucket_of : MemoryLimiter → String → Bucket
bucket_of l key = get_or (Dict.get l.buckets key) (record { count = 0; reset = 0 })

-- `current.reset.IsZero() || !now.Before(current.reset)`
abbrev pub is_over : Bucket → Time → Bool
is_over b now = b.reset == 0 || leb b.reset now

-- The bucket after the call.
unfoldable pub counted : MemoryLimiter → Time → String → Bucket
counted l now key =
    let b = bucket_of l key in
    if is_over b now
    then record { count = add 0 1; reset = now + l.window }
    else record { count = add b.count 1; reset = b.reset }

unfoldable pub allow : Time → String → MemoryLimiter → Bool × MemoryLimiter
unfolding counted
allow now key l = (
  not (less l.limit (counted l now key).count),
  record l { buckets = Dict.put l.buckets key (counted l now key) },
)
