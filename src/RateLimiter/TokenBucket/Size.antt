-- ===== src/RateLimiter/TokenBucket/Size.antt =====
-- What the size of the bucket says of the next call.
use native.Mathlib.Nat.{mul-le-mul_left, mul-le-mul_right, le-div_iff_mul-le, div-mul-le_self}
use orion.Base.{
  ℕ, zero, suc, ◌-◌, ◌*◌, ◌/◌, ◌≤◌, ◌<◌, ◌≡◌, ◌↔◌, refl, subst, some, ltb, leb, if◌then◌else◌,
  arith,
}
use orion.RateLimiter.TokenBucket.Defs.{TokenBucket, returned, round, new, consume, size, size_in}

div_mul : (m i f : ℕ) → m * (i / suc f) ≤ m * i / suc f
div_mul m i f =
    let h : m * (i / suc f * suc f) ≤ m * i = mul-le-mul_left m (div-mul-le_self i (suc f)) in
    (le-div_iff_mul-le {y = m * i} (omega arith)).1 (omega arith)

-- `k` tokens are granted exactly when they are in the bucket, for a time `d` of each, and `q` whole
-- ones between the time of the bucket and now.
granted_iff :
    (bucket : TokenBucket) (now t k n q : ℕ)
    → (k ≤ q) ↔ (k * bucket.time_per_token ≤ now - t)
    → k * bucket.time_per_token ≤ bucket.time_per_bucket
    → bucket.time_per_bucket ≤ now
    → 0 < k
    → k ≤ bucket.max_tokens
    → n ≡ (if ltb now t then 0 else if ltb bucket.max_tokens q then bucket.max_tokens else q)
    → (consume bucket k now t).1.phase ≡ returned (leb k n)
unfolding consume round
granted_iff bucket now t k n q (a, b) f h p c s = ground arith

size_decides :
    (bucket : TokenBucket) (now t k n d : ℕ)
    → bucket.time_per_token ≡ d
    → k * bucket.time_per_token ≤ bucket.time_per_bucket
    → bucket.time_per_bucket ≤ now
    → 0 < k
    → k ≤ bucket.max_tokens
    → (if ltb now t then some 0 else size_in bucket.max_tokens (now - t) d) ≡ some n
    → (consume bucket k now t).1.phase ≡ returned (leb k n)
size_decides bucket now t k n zero e f h p c s =
    granted_iff bucket now t k n k (ground arith, ground arith) f h p c (ground arith)
size_decides bucket now t k n (suc d) e f h p c s =
    let both : (k ≤ (now - t) / suc d) ↔ (k * suc d ≤ now - t) =
      le-div_iff_mul-le {y = now - t} (omega arith) in
    granted_iff bucket now t k n ((now - t) / suc d)
      (λ l. rw e (both.0 l), λ l. both.1 (subst (λ (z : ℕ). k * z ≤ now - t) e l)) f h p c
      (ground arith)

-- What a configuration makes of a bucket: its tokens together take no longer than the bucket.
new_fits :
    (m f i start : ℕ) (bucket : TokenBucket) (t₀ : ℕ)
    → new m f i start ≡ some (bucket, t₀)
    → bucket.max_tokens * bucket.time_per_token ≤ bucket.time_per_bucket
unfolding new
new_fits m zero i start bucket t₀ e = ground arith
new_fits m (suc f) i start bucket t₀ e = let h = div_mul m i f in ground arith

-- When the clock is past the time of one full bucket, a call for some tokens, at most as many as
-- a bucket made by `new` can hold, is granted if no other call disturbs it exactly when they are in
-- the bucket as `size` counts them.
pub size_is_granted :
    (m f i start : ℕ) (bucket : TokenBucket) (t₀ now t k n : ℕ)
    → new m f i start ≡ some (bucket, t₀)
    → bucket.time_per_bucket ≤ now
    → 0 < k
    → k ≤ bucket.max_tokens
    → size bucket now t ≡ some n
    → (consume bucket k now t).1.phase ≡ returned (leb k n)
unfolding size
size_is_granted m f i start bucket t₀ now t k n e h p c s =
    let fits = new_fits m f i start bucket t₀ e in
    let part = mul-le-mul_right bucket.time_per_token c in
    size_decides bucket now t k n bucket.time_per_token refl (omega arith) h p c s
