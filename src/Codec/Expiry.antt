-- ===== src/Codec/Expiry.antt =====
-- Expiry with saturating arithmetic, against unbounded numbers and a later clock.
use Prim.Native.Nat.{min}
use chromatin_protocol.Prelude.{ℕ, ◌+◌, ◌^◌, ◌≤◌, ◌<◌, ◌≡◌, arith, true, ◌==◌, if◌then◌else◌}
use chromatin_protocol.Codec.{BlobData, saturating_expiry, is_blob_expired, u64_max}

-- On a uint64 timestamp and a uint32 ttl the expiry is 0 for a permanent blob, and else the sum,
-- cut off at the largest uint64.
pub saturating_expiry_exact :
    (timestamp ttl : ℕ)
    → timestamp < 2 ^ 64
    → ttl < 2 ^ 32
    → saturating_expiry timestamp ttl ≡ (if ttl == 0 then 0 else min (timestamp + ttl) u64_max)
unfolding saturating_expiry
saturating_expiry_exact timestamp ttl h k = ground arith

-- What has expired stays expired as the clock goes on.
pub is_blob_expired_mono :
    (blob : BlobData) (now later : ℕ)
    → now ≤ later
    → is_blob_expired blob now ≡ true
    → is_blob_expired blob later ≡ true
unfolding is_blob_expired
is_blob_expired_mono blob now later h e = ground arith
