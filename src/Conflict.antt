-- ===== src/Conflict.antt =====
-- cli/src/utils/retry.ts: `retryOnConflict`. What the operation does at each attempt is a parameter; the
-- log and the delay between attempts have no counterpart.
pub mod Bounds
mod Tests
use phala_cloud.Common.{
  ℕ, zero, suc, ◌+◌, Text, lit, Bool, true, false, ◌&&◌, ◌||◌, Option, none, some, List, [], ◌∷◌,
  if◌then◌else◌, ltb, leb, ◌==◌, includes,
}

-- What is read of an error.
pub record Failure : Type 0 where
  pub message : Option Text
  pub status : Option ℕ

pub data Attempt : Type 0 where
  succeeds : ℕ → Attempt
  fails : Failure → Attempt

pub data RetryEnd : Type 0 where
  returned : ℕ → RetryEnd
  thrown : Failure → RetryEnd
  retries_exhausted : RetryEnd

message_includes : Text → Option Text → Bool
unfolding includes
message_includes part none = false
message_includes part (some s) = includes part s

is_status : ℕ → Option ℕ → Bool
is_status n none = false
is_status n (some m) = m == n

unfoldable pub is_409 : Failure → Bool
unfolding message_includes is_status
is_409 e =
    message_includes (lit "409") e.message
    || is_status 409 e.status
    || message_includes (lit "Conflict") e.message

-- The loop from an attempt on, on fuel, with the number of calls of the operation; `none` where the
-- fuel has run out.
unfoldable pub retry_loop : ℕ → (ℕ → Attempt) → ℕ → ℕ → Option (ℕ × RetryEnd)
unfolding is_409
retry_loop max_retries operation zero attempt = none
retry_loop max_retries operation (suc fuel) attempt =
    let rest = retry_loop max_retries operation fuel (suc attempt) in
    if leb attempt max_retries
    then elim (operation attempt) [
      | succeeds a ↦ some (suc attempt, returned a)
      | fails e ↦ if is_409 e && ltb attempt max_retries then rest else some (suc attempt, thrown e)
    ]
    else some (attempt, retries_exhausted)

-- retryOnConflict; a round for each attempt is enough
unfoldable pub retry_on_conflict : ℕ → (ℕ → Attempt) → Option (ℕ × RetryEnd)
unfolding retry_loop
retry_on_conflict max_retries operation = retry_loop max_retries operation (suc max_retries) 0
