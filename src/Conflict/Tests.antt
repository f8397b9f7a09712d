-- ===== src/Conflict/Tests.antt =====
-- Runs with conflicts, and each theorem at one.
use phala_cloud.Common.{ℕ, zero, suc, lit, none, some, ◌≡◌, refl, starts_with, includes}
use phala_cloud.Conflict.{
  Failure, Attempt, succeeds, fails, RetryEnd, returned, thrown, is_409, retry_loop,
  retry_on_conflict,
}
use phala_cloud.Conflict.Bounds.{IsRetried, retry_on_conflict-IsRetried}

abbrev conflict : Failure
conflict = record { message = some (lit "HTTP 409"); status = none }

abbrev twice : ℕ → Attempt
twice zero = fails conflict
twice (suc zero) = fails conflict
twice (suc (suc n)) = succeeds 7

after_two : retry_on_conflict 5 twice ≡ some (3, returned 7)
unfolding retry_on_conflict retry_loop is_409 includes starts_with
after_two = refl

one_allowed : retry_on_conflict 1 twice ≡ some (2, thrown conflict)
unfolding retry_on_conflict retry_loop is_409 includes starts_with
one_allowed = refl

retry_on_conflict-IsRetried_example :
    (last : ℕ) × (end : RetryEnd) × (retry_on_conflict 5 twice ≡ some (suc last, end))
    × IsRetried 5 twice 0 last end
retry_on_conflict-IsRetried_example = retry_on_conflict-IsRetried 5 twice
