-- ===== src/Network/Poll.antt =====
-- That polling ends, and what it ends with.
use phala_cloud.Common.{
  ℕ, zero, suc, ◌+◌, ◌≤◌, ◌<◌, true, none, some, ◌≡◌, refl, sym, ◌∙◌, inl, inr, ◌⊎◌, arith,
  Option-cases, Bool-cases, leb, ltb, ap, subst, ◌&&◌,
}
use phala_cloud.Network.{
  Receipt, Answer, no_receipt, call_fails, receipt_at, PollRound, WaitEnd, resolved,
  confirmation_timeout, receipt_timeout, too_few, poll_once, poll_from,
  wait_for_transaction_receipt,
}

-- A round at or behind the timeout settles the promise.
poll_once_late :
    (timeout confirmations elapsed : ℕ) (a : Answer)
    → timeout ≤ elapsed
    → (w : WaitEnd) × (poll_once timeout confirmations (record { answer = a; elapsed = elapsed })
        ≡ some w)
unfolding poll_once
poll_once_late timeout confirmations elapsed no_receipt h =
    let late : leb timeout elapsed ≡ true = ground arith in (receipt_timeout none, rw late refl)
poll_once_late timeout confirmations elapsed (call_fails m) h =
    let late : leb timeout elapsed ≡ true = ground arith in (receipt_timeout (some m), rw late refl)
poll_once_late timeout confirmations elapsed (receipt_at r c) h =
    let late : leb timeout elapsed ≡ true = ground arith in
    elim (Bool-cases (ltb 1 confirmations && too_few confirmations r c)) [
      | inl e ↦ (confirmation_timeout, rw (e, late) refl)
      | inr e ↦ (resolved r, rw e refl)
    ]

settled :
    (timeout confirmations : ℕ) (polls : ℕ → PollRound) (i fuel : ℕ) (w : WaitEnd)
    → poll_once timeout confirmations (polls i) ≡ some w
    → poll_from timeout confirmations polls (suc fuel) i ≡ some w
unfolding poll_from
settled timeout confirmations polls i fuel w e = rw (e, poll_from) refl

polled_again :
    (timeout confirmations : ℕ) (polls : ℕ → PollRound) (i fuel : ℕ)
    → poll_once timeout confirmations (polls i) ≡ none
    → poll_from timeout confirmations polls (suc fuel) i
      ≡ poll_from timeout confirmations polls fuel (suc i)
unfolding poll_from
polled_again timeout confirmations polls i fuel e = rw (e, poll_from) refl

poll_from_ends :
    (timeout confirmations : ℕ) (polls : ℕ → PollRound) (n i fuel : ℕ)
    → timeout ≤ (polls (i + n)).elapsed
    → n < fuel
    → (w : WaitEnd) × (poll_from timeout confirmations polls fuel i ≡ some w)
unfolding poll_from
poll_from_ends timeout confirmations polls n i zero h f = absurd (omega arith)
poll_from_ends timeout confirmations polls zero i (suc fuel) h f =
    let same : i + 0 ≡ i = omega arith in
    let (w, e) =
      poll_once_late timeout confirmations (polls i).elapsed (polls i).answer
        (subst (λ (j : ℕ). timeout ≤ (polls j).elapsed) same h) in
    (w, settled timeout confirmations polls i fuel w e)
poll_from_ends timeout confirmations polls (suc n) i (suc fuel) h f =
    elim (Option-cases (poll_once timeout confirmations (polls i))) [
      | inr (w, e) ↦ (w, settled timeout confirmations polls i fuel w e)
      | inl e ↦
          let same : i + suc n ≡ suc i + n = omega arith in
          let (w, later) =
            poll_from_ends timeout confirmations polls n (suc i) fuel
              (subst (λ (j : ℕ). timeout ≤ (polls j).elapsed) same h) (omega arith) in
          (w, polled_again timeout confirmations polls i fuel e ∙ later)
    ]

-- If some round stands at or behind the timeout, polling settles its promise by that round.
pub wait_for_transaction_receipt_ends :
    (timeout confirmations : ℕ) (polls : ℕ → PollRound) (n fuel : ℕ)
    → timeout ≤ (polls n).elapsed
    → n < fuel
    → (w : WaitEnd) × (wait_for_transaction_receipt timeout confirmations polls fuel ≡ some w)
unfolding wait_for_transaction_receipt
wait_for_transaction_receipt_ends timeout confirmations polls n fuel h f =
    let same : n ≡ 0 + n = omega arith in
    poll_from_ends timeout confirmations polls n 0 fuel
      (subst (λ (j : ℕ). timeout ≤ (polls j).elapsed) same h) f

-- One of the polls gave the receipt, at a block with the confirmations wanted.
pub record IsConfirmed (confirmations : ℕ) (polls : ℕ → PollRound) (r : Receipt) : Type 0 where
  pub round : ℕ
  pub current : ℕ
  pub answered : (polls round).answer ≡ receipt_at r current
  pub confirmed : (confirmations ≤ 1) ⊎ (confirmations + r.block_number ≤ current + 1)

poll_once-resolved :
    (timeout confirmations elapsed : ℕ) (a : Answer) (r : Receipt)
    → poll_once timeout confirmations (record { answer = a; elapsed = elapsed }) ≡ some (resolved r)
    → (c : ℕ) × (a ≡ receipt_at r c)
      × ((confirmations ≤ 1) ⊎ (confirmations + r.block_number ≤ c + 1))
unfolding poll_once too_few
poll_once-resolved timeout confirmations elapsed no_receipt r h =
    absurd (elim (Bool-cases (leb timeout elapsed)) [
      | inl e ↦ let bad = rw e at h in cc
      | inr e ↦ let bad = rw e at h in cc
    ])
poll_once-resolved timeout confirmations elapsed (call_fails m) r h =
    absurd (elim (Bool-cases (leb timeout elapsed)) [
      | inl e ↦ let bad = rw e at h in cc
      | inr e ↦ let bad = rw e at h in cc
    ])
poll_once-resolved timeout confirmations elapsed (receipt_at s c) r h =
    elim (Bool-cases (ltb 1 confirmations && too_few confirmations s c)) [
      | inl e ↦ absurd (elim (Bool-cases (leb timeout elapsed)) [
        | inl l ↦ let bad = rw (e, l) at h in cc
        | inr l ↦ let bad = rw (e, l) at h in cc
      ])
      | inr e ↦
          let taken : some (resolved s) ≡ some (resolved r) = rw e at h in
          let same : s ≡ r = cc in
          (
            c,
            ap (λ q. receipt_at q c) same,
            subst (λ q. (confirmations ≤ 1) ⊎ (confirmations + q.block_number ≤ c + 1)) same
                (ground arith),
          )
    ]

poll_from-resolved :
    (timeout confirmations : ℕ) (polls : ℕ → PollRound) (fuel i : ℕ) (r : Receipt)
    → poll_from timeout confirmations polls fuel i ≡ some (resolved r)
    → IsConfirmed confirmations polls r
unfolding poll_from
poll_from-resolved timeout confirmations polls zero i r h = cc
poll_from-resolved timeout confirmations polls (suc fuel) i r h =
    elim (Option-cases (poll_once timeout confirmations (polls i))) [
      | inl e ↦
          poll_from-resolved timeout confirmations polls fuel (suc i) r
            (sym (polled_again timeout confirmations polls i fuel e) ∙ h)
      | inr (w, e) ↦
          let same : some w ≡ some (resolved r) =
            sym (settled timeout confirmations polls i fuel w e) ∙ h in
          let (c, a, q) =
            poll_once-resolved timeout confirmations (polls i).elapsed (polls i).answer r
              (e ∙ same) in
          record { round = i; current = c; answered = a; confirmed = q }
    ]

pub wait-IsConfirmed :
    (timeout confirmations : ℕ) (polls : ℕ → PollRound) (fuel : ℕ) (r : Receipt)
    → wait_for_transaction_receipt timeout confirmations polls fuel ≡ some (resolved r)
    → IsConfirmed confirmations polls r
unfolding wait_for_transaction_receipt
wait-IsConfirmed timeout confirmations polls fuel r h =
    poll_from-resolved timeout confirmations polls fuel 0 r h
