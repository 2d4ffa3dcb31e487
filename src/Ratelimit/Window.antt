-- ===== src/Ratelimit/Window.antt =====
-- What one window of the limiter lets through, with calls for other keys in between.
use fulfillhub_go_commerce_p.Prelude.{
  ℕ, suc, ◌+◌, ◌-◌, ◌≤◌, ◌<◌, ltb, String, ◌≡◌, refl, true, false, not, ◌&&◌, List, [], ◌∷◌, some,
  All, length, arith, str_eq, if◌then◌else◌, Bool-cases, inl, inr, eq_iff,
}
use fulfillhub_go_commerce_p.Prelude.Int64.{Int64, add, less, sign_bit}
use fulfillhub_go_commerce_p.Dict
use fulfillhub_go_commerce_p.Dict.{get-put, get-put_cases, get-put_self}
use fulfillhub_go_commerce_p.Commerce.Model.{Time}
use fulfillhub_go_commerce_p.Ratelimit.{Bucket, MemoryLimiter, allow, counted, bucket_of, is_over}

-- The calls of one key that are allowed, among calls of any keys at the given times.
pub grants : String → List (Time × String) → MemoryLimiter → ℕ
grants key [] l = 0
grants key ((now, k) ∷ calls) l =
    let (allowed, m) = allow now k l in
    let rest = grants key calls m in if str_eq k key && allowed then suc rest else rest

less-ltb : (a b : Int64) → a < sign_bit → b < sign_bit → less a b ≡ ltb a b
unfolding less
less-ltb a b ha hb = ground arith

-- A call inside the window adds one to the count.
counted_inside :
    (l : MemoryLimiter) (now : Time) (key : String) (b : Bucket)
    → Dict.get l.buckets key ≡ some b
    → now < b.reset
    → b.count + 1 < sign_bit
    → counted l now key ≡ record { count = b.count + 1; reset = b.reset }
unfolding counted add
counted_inside l now key b found inside small = rw found (ground arith)

-- Inside the window a call is allowed while the limit is not reached.
allow_inside :
    (l : MemoryLimiter) (now : Time) (key : String) (b : Bucket)
    → Dict.get l.buckets key ≡ some b
    → now < b.reset
    → l.limit < sign_bit
    → b.count + 1 < sign_bit
    → allow now key l ≡ (
      not (ltb l.limit (b.count + 1)),
      record l {
        buckets = Dict.put l.buckets key (record { count = b.count + 1; reset = b.reset });
      },
    )
unfolding allow
allow_inside l now key b found inside capped small =
    rw (counted_inside l now key b found inside small)
      (rw (less-ltb l.limit (b.count + 1) capped small) refl)

-- A call for another key leaves the bucket alone.
other_kept :
    (l : MemoryLimiter) (now : Time) (k key : String)
    → str_eq k key ≡ false
    → Dict.get (allow now k l).1.buckets key ≡ Dict.get l.buckets key
unfolding allow
other_kept l now k key differs = rw (get-put l.buckets k key (counted l now k)) (rw differs refl)

limit_kept : (l : MemoryLimiter) (now : Time) (k : String) → (allow now k l).1.limit ≡ l.limit
unfolding allow
limit_kept l now k = refl

grants_inside :
    (key : String) (calls : List (Time × String)) (l : MemoryLimiter) (b : Bucket)
    → Dict.get l.buckets key ≡ some b
    → All (λ c. c.0 < b.reset) calls
    → l.limit < sign_bit
    → b.count + length calls < sign_bit
    → grants key calls l ≤ l.limit - b.count
unfolding grants
grants_inside key [] l b found inside capped small = omega arith
grants_inside key ((now, k) ∷ calls) l b found inside capped small =
    elim (Bool-cases (str_eq k key)) [
      | inr differs ↦
          let rest =
            grants_inside key calls (allow now k l).1 b (rw (other_kept l now k key differs) found)
              inside.1 (rw (limit_kept l now k) capped) (omega (arith, small)) in
          rw differs (omega (arith, rest, limit_kept l now k))
      | inl same ↦
          let name : k ≡ key = ground (arith, same, eq_iff k key) in
          let next : Bucket = record { count = b.count + 1; reset = b.reset } in
          let m : MemoryLimiter = record l { buckets = Dict.put l.buckets key next } in
          let rest =
            grants_inside key calls m next (get-put_self l.buckets key next) inside.1 capped
              (omega (arith, small)) in
          rw name (
            rw (allow_inside l now key b found inside.0 capped (omega (arith, small)))
              (ground (arith, rest)))
    ]

counted_fresh :
    (l : MemoryLimiter) (now : Time) (key : String)
    → is_over (bucket_of l key) now ≡ true
    → counted l now key ≡ record { count = 1; reset = now + l.window }
unfolding counted add
counted_fresh l now key over = rw over refl

-- Whatever calls for whatever keys follow within the window that a first call of a key opens, at most
-- as many calls of that key are allowed as the limit says. The limit is not negative and the calls
-- are fewer than 2 ^ 63.
pub window_bounded :
    (key : String) (start : Time) (calls : List (Time × String)) (l : MemoryLimiter)
    → is_over (bucket_of l key) start ≡ true
    → All (λ c. c.0 < start + l.window) calls
    → l.limit < sign_bit
    → 1 + length calls < sign_bit
    → grants key ((start, key) ∷ calls) l ≤ l.limit
unfolding grants allow
window_bounded key start calls l over inside capped small =
    let b : Bucket = record { count = 1; reset = start + l.window } in
    let m : MemoryLimiter = record l { buckets = Dict.put l.buckets key b } in
    let rest = grants_inside key calls m b (get-put_self l.buckets key b) inside capped small in
    rw (counted_fresh l start key over)
      (rw (less-ltb l.limit 1 capped (omega arith)) (ground (arith, rest)))
