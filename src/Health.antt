-- ===== src/Health.antt =====
-- The readiness probe of app/api/v1/endpoints/health.py, with `ensure_bucket_exists` of
-- app/services/storage.py. What the database, Redis and the object storage reply is an argument.
use Prim.Native.String.{String}
use multi_tenant_saas.Base.{
  ℕ, ◌≡◌, refl, Bool, true, false, ◌&&◌, Option, none, some, if◌then◌else◌,
}

-- A call of the storage: it returns, raises a `ClientError`, or raises another exception.
pub data StorageReply : Type 0 where
  returned client_error other_error : StorageReply

-- `pong is True or pong == "PONG"`
pub data Pong : Type 0 where
  is_true says_pong something_else : Pong

pub record ReadinessResponse : Type 0 where
  pub status : String
  pub database : Bool
  pub redis : Bool
  pub storage : Bool

-- What the three systems reply; none is an exception.
pub record Replies : Type 0 where
  pub health_check : Option Bool
  pub ping : Option Pong
  pub head_bucket : StorageReply
  pub create_bucket : StorageReply

-- True for a return, false for an exception: one of `create_bucket` is logged and dropped.
unfoldable pub ensure_bucket_exists : StorageReply → StorageReply → Bool
ensure_bucket_exists returned create_bucket = true
ensure_bucket_exists client_error returned = true
ensure_bucket_exists client_error client_error = true
ensure_bucket_exists client_error other_error = true
ensure_bucket_exists other_error create_bucket = false

abbrev pub true_or_failed : Option Bool → Bool
true_or_failed none = false
true_or_failed (some b) = b

abbrev pub redis_healthy : Option Pong → Bool
redis_healthy none = false
redis_healthy (some is_true) = true
redis_healthy (some says_pong) = true
redis_healthy (some something_else) = false

-- The status code and the body.
unfoldable pub readiness_check : Replies → ℕ × ReadinessResponse
unfolding ensure_bucket_exists
readiness_check r =
    let db_healthy = true_or_failed r.health_check in
    let pong_healthy = redis_healthy r.ping in
    let storage_healthy = ensure_bucket_exists r.head_bucket r.create_bucket in
    let is_all_ready = db_healthy && pong_healthy && storage_healthy in
    (
      if is_all_ready then 200 else 503,
      record {
        status = if is_all_ready then "ready" else "unready";
        database = db_healthy;
        redis = pong_healthy;
        storage = storage_healthy;
      },
    )

dropped_failure : (c : StorageReply) → ensure_bucket_exists client_error c ≡ true
unfolding ensure_bucket_exists
dropped_failure returned = refl
dropped_failure client_error = refl
dropped_failure other_error = refl

-- A bucket that is missing and cannot be made counts as healthy storage.
pub readiness_check_no_bucket :
    (r : Replies)
    → r.health_check ≡ some true
    → r.ping ≡ some is_true
    → r.head_bucket ≡ client_error
    → (readiness_check r).0 ≡ 200
unfolding readiness_check
readiness_check_no_bucket r d p h = rw (d, p, h, dropped_failure r.create_bucket) refl
