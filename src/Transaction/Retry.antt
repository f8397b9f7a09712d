-- ===== src/Transaction/Retry.antt =====
-- js/src/utils/transaction.ts: `executeTransactionWithRetry`. What each execution ends with is given; the
-- numbers of the options are natural ones.
use phala_cloud.Common.{
  ℕ, zero, suc, ◌+◌, ◌*◌, ◌≤◌, ◌<◌, min, Bool, true, false, not, List, [], ◌∷◌, length, leb,
  if◌then◌else◌, ◌≡◌, refl, sym, subst, ap, ◌∙◌, arith, inl, inr, ◌⊎◌, Bool-cases,
}
use native.Mathlib.Nat.{mul-le-mul_left, mul-le-mul_right}
use phala_cloud.Transaction.{Ended, returned, thrown, TransactionError}

pub record RetryOptions : Type 0 where
  pub max_retries : ℕ
  pub initial_delay : ℕ
  pub max_delay : ℕ
  pub backoff_factor : ℕ
  pub retry_condition : TransactionError → Bool

-- The executions made, the delays waited for between them, and the end.
pub record Retried : Type 0 where
  pub calls : ℕ
  pub waits : List ℕ
  pub end : Ended

abbrev after_wait : ℕ → Retried → Retried
after_wait delay r = record { calls = suc r.calls; waits = delay ∷ r.waits; end = r.end }

abbrev stop : Ended → Retried
stop e = record { calls = 1; waits = []; end = e }

-- An execution that has ended, before the wait and the attempts behind it.
unfoldable pub tried : RetryOptions → Ended → ℕ → Retried → Retried
tried o (returned hash r) delay rest = stop (returned hash r)
tried o (thrown e) delay rest =
    if not (o.retry_condition e) then stop (thrown e) else after_wait delay rest

-- The loop from an attempt on, with the number of attempts left behind it.
unfoldable pub attempts : RetryOptions → (ℕ → Ended) → ℕ → ℕ → ℕ → Retried
unfolding tried
attempts o ends zero attempt delay = stop (ends attempt)
attempts o ends (suc left) attempt delay =
    tried o (ends attempt) delay
      (attempts o ends left (suc attempt) (min (delay * o.backoff_factor) o.max_delay))

-- executeTransactionWithRetry
unfoldable pub execute_transaction_with_retry : RetryOptions → (ℕ → Ended) → Retried
unfolding attempts
execute_transaction_with_retry o ends = attempts o ends o.max_retries 0 o.initial_delay

power : ℕ → ℕ → ℕ
power f zero = 1
power f (suc k) = power f k * f

-- The delay behind an attempt: the initial one, and then its multiples up to the greatest delay.
pub backoff : RetryOptions → ℕ → ℕ
unfolding power
backoff o zero = o.initial_delay
backoff o (suc k) = min (o.initial_delay * power o.backoff_factor (suc k)) o.max_delay

-- The delays behind so many attempts, from one on.
pub delays : RetryOptions → ℕ → ℕ → List ℕ
delays o attempt zero = []
delays o attempt (suc n) = backoff o attempt ∷ delays o (suc attempt) n

abbrev pub IsRetryable : RetryOptions → Ended → Type 0
IsRetryable o (returned hash r) = true ≡ false
IsRetryable o (thrown e) = o.retry_condition e ≡ true

abbrev pub IsFinal : RetryOptions → Ended → Type 0
IsFinal o (returned hash r) = Unit
IsFinal o (thrown e) = o.retry_condition e ≡ false

-- The executions from an attempt on, with so many attempts left behind it.
pub record IsRetryOf (o : RetryOptions) (ends : ℕ → Ended) (attempt left : ℕ) (r : Retried)
    : Type 0 where
  pub few : r.calls ≤ suc left
  pub between : r.calls ≡ suc (length r.waits)
  pub backed_off : r.waits ≡ delays o attempt (length r.waits)
  pub failed : (j : ℕ) → j < length r.waits → IsRetryable o (ends (attempt + j))
  pub last : r.end ≡ ends (attempt + length r.waits)
  pub stopped : (r.calls ≡ suc left) ⊎ IsFinal o r.end

min_twice : (a f m : ℕ) → 1 ≤ f → min (min a m * f) m ≡ min (a * f) m
min_twice a f m h =
    let grows : m * 1 ≤ m * f = mul-le-mul_left m h in
    elim (Bool-cases (leb a m)) [
      | inl e ↦
          let le : a ≤ m = ground arith in let same : min a m ≡ a = omega arith in rw same refl
      | inr e ↦
          let le : m ≤ a = ground arith in
          let same : min a m ≡ m = omega arith in
          let more : m * f ≤ a * f = mul-le-mul_right f le in rw same (omega arith)
    ]

backoff-suc :
    (o : RetryOptions) (k : ℕ)
    → 1 ≤ o.backoff_factor
    → min (backoff o k * o.backoff_factor) o.max_delay ≡ backoff o (suc k)
unfolding backoff power
backoff-suc o zero h = ap (λ x. min x o.max_delay) (omega arith)
backoff-suc o (suc k) h =
    min_twice (o.initial_delay * power o.backoff_factor (suc k)) o.backoff_factor o.max_delay h
    ∙ ap (λ x. min x o.max_delay) (omega arith)

stop-IsRetryOf :
    (o : RetryOptions) (ends : ℕ → Ended) (attempt left : ℕ)
    → ((1 ≡ suc left) ⊎ IsFinal o (ends attempt))
    → IsRetryOf o ends attempt left (stop (ends attempt))
unfolding delays
stop-IsRetryOf o ends attempt left s = record {
  few = omega arith;
  between = refl;
  backed_off = refl;
  failed = λ j l. absurd (omega arith);
  last = ap ends (omega arith);
  stopped = s;
}

again-IsRetryOf :
    (o : RetryOptions) (ends : ℕ → Ended) (attempt left : ℕ) (r : Retried)
    → IsRetryable o (ends attempt)
    → IsRetryOf o ends (suc attempt) left r
    → IsRetryOf o ends attempt (suc left) (after_wait (backoff o attempt) r)
unfolding delays
again-IsRetryOf o ends attempt left r c h = record {
  few = omega (arith, h.few);
  between = ap suc h.between;
  backed_off = ap (λ l. backoff o attempt ∷ l) h.backed_off;
  failed = λ j l. earlier j l;
  last = h.last ∙ ap ends (omega arith);
  stopped = elim h.stopped [ inl e ↦ inl (ap suc e) | inr f ↦ inr f ];
}
  where
    earlier : (j : ℕ) → j < suc (length r.waits) → IsRetryable o (ends (attempt + j))
    earlier zero l = subst (λ i. IsRetryable o (ends i)) (omega arith) c
    earlier (suc j) l = subst (λ i. IsRetryable o (ends i)) (omega arith) (h.failed j (omega arith))

tried-IsRetryOf :
    (o : RetryOptions) (ends : ℕ → Ended) (attempt left : ℕ) (e : Ended) (rest : Retried)
    → ends attempt ≡ e
    → IsRetryOf o ends (suc attempt) left rest
    → IsRetryOf o ends attempt (suc left) (tried o e (backoff o attempt) rest)
unfolding tried
tried-IsRetryOf o ends attempt left (returned hash r) rest same h =
    subst (λ e. IsRetryOf o ends attempt (suc left) (stop e)) same
      (stop-IsRetryOf o ends attempt (suc left) (inr (subst (IsFinal o) (sym same) tt)))
tried-IsRetryOf o ends attempt left (thrown e) rest same h =
    elim (Bool-cases (o.retry_condition e)) [
      | inl c ↦
          rw c (again-IsRetryOf o ends attempt left rest (subst (IsRetryable o) (sym same) c) h)
      | inr c ↦ rw c (
          subst (λ e. IsRetryOf o ends attempt (suc left) (stop e)) same
            (stop-IsRetryOf o ends attempt (suc left) (inr (subst (IsFinal o) (sym same) c))))
    ]

attempts-IsRetryOf :
    (o : RetryOptions) (ends : ℕ → Ended) (left attempt delay : ℕ)
    → 1 ≤ o.backoff_factor
    → delay ≡ backoff o attempt
    → IsRetryOf o ends attempt left (attempts o ends left attempt delay)
unfolding attempts
attempts-IsRetryOf o ends zero attempt delay h d = stop-IsRetryOf o ends attempt 0 (inl refl)
attempts-IsRetryOf o ends (suc left) attempt delay h d =
    let next : min (delay * o.backoff_factor) o.max_delay ≡ backoff o (suc attempt) =
      ap (λ x. min (x * o.backoff_factor) o.max_delay) d ∙ backoff-suc o attempt h in
    let rest =
      attempts-IsRetryOf o ends left (suc attempt) (min (delay * o.backoff_factor) o.max_delay) h
        next in
    subst
      (λ x. IsRetryOf o ends attempt (suc left) (
        tried o (ends attempt) x
          (attempts o ends left (suc attempt) (min (delay * o.backoff_factor) o.max_delay))))
      (sym d) (tried-IsRetryOf o ends attempt left (ends attempt) _ refl rest)

-- With a backoff factor of one at least, executeTransactionWithRetry makes at most one execution more
-- than the retries allowed. Each but the last throws an error to retry, and is followed by a delay: the
-- initial one, and then that times a power of the factor, up to the greatest delay. The end is that of
-- the last, which is a result, an error not to retry, or the end of the last execution allowed.
pub execute_transaction_with_retry-IsRetryOf :
    (o : RetryOptions) (ends : ℕ → Ended)
    → 1 ≤ o.backoff_factor
    → IsRetryOf o ends 0 o.max_retries (execute_transaction_with_retry o ends)
unfolding execute_transaction_with_retry backoff
execute_transaction_with_retry-IsRetryOf o ends h =
    attempts-IsRetryOf o ends o.max_retries 0 o.initial_delay h refl
