-- ===== src/Conflict/Bounds.antt =====
-- How often `retryOnConflict` calls the operation, and what it ends with.
use phala_cloud.Common.{
  ℕ, zero, suc, ◌+◌, ◌≤◌, ◌<◌, true, false, some, ◌≡◌, refl, inl, inr, ◌⊎◌, arith, Bool-cases, ltb,
  leb, subst,
}
use phala_cloud.Conflict.{
  Attempt, succeeds, fails, RetryEnd, returned, thrown, is_409, retry_loop, retry_on_conflict,
}

pub IsConflict : Attempt → Type 0
IsConflict (succeeds a) = (true ≡ false)
IsConflict (fails e) = (is_409 e ≡ true)

-- The end is that of the last attempt: its result, or its error, which is no conflict or meets the
-- bound.
pub IsEndOf : ℕ → ℕ → Attempt → RetryEnd → Type 0
IsEndOf max_retries last (succeeds a) end = (end ≡ returned a)
IsEndOf max_retries last (fails e) end =
    (end ≡ thrown e) × ((is_409 e ≡ false) ⊎ (last ≡ max_retries))

pub record IsRetried (max_retries : ℕ) (operation : ℕ → Attempt) (first last : ℕ) (end : RetryEnd)
    : Type 0 where
  pub bounded : last ≤ max_retries
  pub conflicts : (j : ℕ) → first ≤ j → j < last → IsConflict (operation j)
  pub ended : IsEndOf max_retries last (operation last) end

-- The first attempt ends it.
ends_here :
    (max_retries : ℕ) (operation : ℕ → Attempt) (attempt : ℕ) (end : RetryEnd)
    → attempt ≤ max_retries
    → IsEndOf max_retries attempt (operation attempt) end
    → IsRetried max_retries operation attempt attempt end
ends_here max_retries operation attempt end le h = record {
  bounded = le;
  conflicts = λ j a b. absurd (omega arith);
  ended = h;
}

goes_on :
    (max_retries : ℕ) (operation : ℕ → Attempt) (attempt last : ℕ) (end : RetryEnd)
    → IsConflict (operation attempt)
    → IsRetried max_retries operation (suc attempt) last end
    → IsRetried max_retries operation attempt last end
goes_on max_retries operation attempt last end c h = record {
  bounded = h.bounded;
  conflicts = λ j a b. elim (Bool-cases (leb (suc attempt) j)) [
    | inl e ↦ h.conflicts j (ground arith) b
    | inr e ↦
        let same : attempt ≡ j = ground arith in subst (λ (i : ℕ). IsConflict (operation i)) same c
  ];
  ended = h.ended;
}

retry_loop-IsRetried :
    (max_retries : ℕ) (operation : ℕ → Attempt) (fuel attempt : ℕ)
    → attempt ≤ max_retries
    → max_retries < attempt + fuel
    → (last : ℕ) × (end : RetryEnd) × (retry_loop max_retries operation fuel attempt
        ≡ some (suc last, end))
      × IsRetried max_retries operation attempt last end
unfolding retry_loop IsConflict IsEndOf
retry_loop-IsRetried max_retries operation zero attempt le f = absurd (omega arith)
retry_loop-IsRetried max_retries operation (suc fuel) attempt le f =
    go (λ l. retry_loop-IsRetried max_retries operation fuel (suc attempt) l (omega arith))
      (operation attempt) refl
  where
    runs : leb attempt max_retries ≡ true
    runs = ground arith

    go :
        (suc attempt ≤ max_retries
          → (last : ℕ) × (end : RetryEnd) × (retry_loop max_retries operation fuel (suc attempt)
              ≡ some (suc last, end))
            × IsRetried max_retries operation (suc attempt) last end)
        → (a : Attempt) → operation attempt ≡ a
        → (last : ℕ) × (end : RetryEnd) × (retry_loop max_retries operation (suc fuel) attempt
            ≡ some (suc last, end))
          × IsRetried max_retries operation attempt last end
    go step (succeeds a) e = (
      attempt,
      returned a,
      rw (runs, e, retry_loop) refl,
      ends_here max_retries operation attempt (returned a) le (rw e refl),
    )
    go step (fails x) e = elim (Bool-cases (is_409 x)) [
      | inr n ↦ (
        attempt,
        thrown x,
        rw (runs, e, n, retry_loop) refl,
        ends_here max_retries operation attempt (thrown x) le (rw e (refl, inl n)),
      )
      | inl y ↦ elim (Bool-cases (ltb attempt max_retries)) [
        | inr n ↦ (
          attempt,
          thrown x,
          rw (runs, e, y, n, retry_loop) refl,
          ends_here max_retries operation attempt (thrown x) le (rw e (refl, inr (ground arith))),
        )
        | inl l ↦
            let (last, end, same, h) = step (ground arith) in
            (
              last,
              end,
              rw (runs, e, y, l, retry_loop) same,
              goes_on max_retries operation attempt last end (rw e y) h,
            )
      ]
    ]

-- Whatever the operation does, retryOnConflict ends after at most one call more than the retries
-- allowed: every attempt but the last met a conflict, and the end is the result of the last attempt, or
-- its own error, which is no conflict or that of the last attempt allowed.
pub retry_on_conflict-IsRetried :
    (max_retries : ℕ) (operation : ℕ → Attempt)
    → (last : ℕ) × (end : RetryEnd) × (retry_on_conflict max_retries operation
        ≡ some (suc last, end))
      × IsRetried max_retries operation 0 last end
unfolding retry_on_conflict
retry_on_conflict-IsRetried max_retries operation =
    retry_loop-IsRetried max_retries operation (suc max_retries) 0 (omega arith) (omega arith)
