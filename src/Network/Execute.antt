-- ===== src/Network/Execute.antt =====
-- What `executeTransaction` returns, and which callbacks it has called then.
use phala_cloud.Common.{
  ℕ, ◌≤◌, ◌<◌, Bool, true, some, List, [], ◌∷◌, ◌≡◌, refl, sym, ◌∙◌, ap, inl, inr, Option-cases,
  Bool-cases,
}
use phala_cloud.Network.{
  Receipt, PollRound, WaitEnd, resolved, confirmation_timeout, receipt_timeout,
  wait_for_transaction_receipt, Submitted, sent, refused, Callback, on_submitted, on_confirmed,
  Outcome, returns, caught, after_wait, execute_transaction,
}
use phala_cloud.Network.Poll.{IsConfirmed, wait-IsConfirmed, wait_for_transaction_receipt_ends}

after_sent :
    (timeout confirmations hash : ℕ) (polls : ℕ → PollRound) (fuel : ℕ) (w : WaitEnd)
    → wait_for_transaction_receipt timeout confirmations polls fuel ≡ some w
    → execute_transaction timeout confirmations (sent hash) polls fuel ≡ some (after_wait hash w)
unfolding execute_transaction
after_sent timeout confirmations hash polls fuel w e = rw (e, execute_transaction) refl

-- A result is the receipt of the transaction sent, which succeeded and has the confirmations wanted;
-- onSubmitted and onConfirmed have been called once each, in this order, and onError not at all.
pub record IsExecuted (confirmations : ℕ) (sub : Submitted) (polls : ℕ → PollRound)
    (calls : List Callback) (hash : ℕ) (r : Receipt) (success : Bool) : Type 0 where
  pub submitted : sub ≡ sent hash
  pub called : calls ≡ on_submitted hash ∷ on_confirmed r ∷ []
  pub succeeded : r.success ≡ true
  pub reported : success ≡ true
  pub confirmed : IsConfirmed confirmations polls r

after_wait-returns :
    (timeout confirmations sent_hash : ℕ) (polls : ℕ → PollRound) (fuel : ℕ) (w : WaitEnd)
    (calls : List Callback) (hash : ℕ) (r : Receipt) (success : Bool)
    → wait_for_transaction_receipt timeout confirmations polls fuel ≡ some w
    → after_wait sent_hash w ≡ (calls, returns hash r success)
    → IsExecuted confirmations (sent sent_hash) polls calls hash r success
unfolding after_wait caught
after_wait-returns timeout confirmations sh polls fuel (resolved q) calls hash r success e h =
    elim (Bool-cases q.success) [
      | inl s ↦
          let taken = rw s at h in
          let same : q ≡ r = cc in
          record {
            submitted = cc;
            called = cc;
            succeeded = sym (ap (λ (x : Receipt). x.success) same) ∙ s;
            reported = cc;
            confirmed =
                wait-IsConfirmed timeout confirmations polls fuel r
                  (e ∙ ap (λ x. some (resolved x)) same);
          }
      | inr s ↦ let bad = rw s at h in absurd cc
    ]
after_wait-returns timeout confirmations sh polls fuel confirmation_timeout calls hash r success e
      h =
    absurd cc
after_wait-returns timeout confirmations sh polls fuel (receipt_timeout m) calls hash r success e
      h =
    absurd cc

-- If executeTransaction returns, it does so with the hash and the receipt of the transaction sent,
-- which succeeded and has the confirmations wanted, and onSubmitted and onConfirmed have been called
-- once each, in this order, and onError not at all.
pub execute_transaction_returns :
    (timeout confirmations : ℕ) (sub : Submitted) (polls : ℕ → PollRound) (fuel : ℕ)
    (calls : List Callback) (hash : ℕ) (r : Receipt) (success : Bool)
    → execute_transaction timeout confirmations sub polls fuel
      ≡ some (calls, returns hash r success)
    → IsExecuted confirmations sub polls calls hash r success
unfolding execute_transaction caught
execute_transaction_returns timeout confirmations (refused m) polls fuel calls hash r success h =
    absurd cc
execute_transaction_returns timeout confirmations (sent sh) polls fuel calls hash r success h =
    elim (Option-cases (wait_for_transaction_receipt timeout confirmations polls fuel)) [
      | inl e ↦ let bad = rw (e, execute_transaction) at h in absurd cc
      | inr (w, e) ↦
          let taken = sym (after_sent timeout confirmations sh polls fuel w e) ∙ h in
          after_wait-returns timeout confirmations sh polls fuel w calls hash r success e cc
    ]

-- If some round of the polls stands at or behind the timeout, executeTransaction ends: it returns or
-- throws, given fuel for the rounds up to that one.
pub execute_transaction_ends :
    (timeout confirmations : ℕ) (sub : Submitted) (polls : ℕ → PollRound) (n fuel : ℕ)
    → timeout ≤ (polls n).elapsed
    → n < fuel
    → (end : List Callback × Outcome) × (execute_transaction timeout confirmations sub polls fuel
        ≡ some end)
unfolding execute_transaction
execute_transaction_ends timeout confirmations (refused m) polls n fuel h f = (_, refl)
execute_transaction_ends timeout confirmations (sent hash) polls n fuel h f =
    let (w, e) = wait_for_transaction_receipt_ends timeout confirmations polls n fuel h f in
    (after_wait hash w, after_sent timeout confirmations hash polls fuel w e)
