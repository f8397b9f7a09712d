-- ===== src/Transaction/Batch.antt =====
-- js/src/utils/transaction.ts: `executeBatchTransactions`. What each execution ends with is given,
-- and so is which calls of onProgress throw.
use phala_cloud.Common.{
  ℕ, suc, ◌+◌, ◌-◌, Bool, true, false, Option, none, some, not, ◌&&◌, List, [], ◌∷◌, ◌++◌, map, all,
  length, if◌then◌else◌, ◌==◌, ◌≡◌, ◌≤◌, refl, sym, ap, ◌∙◌, arith, inl, inr, Bool-cases, replicate,
  append-nil, append_assoc, length-map, length-replicate,
}
use phala_cloud.Transaction.{Ended, returned, thrown}

-- A place of the results: what an execution ended with, the error of one that was not started, or the
-- error that onProgress threw.
pub data Slot : Type 0 where
  finished : Ended → Slot
  cancelled broken : Slot

-- A call of onProgress.
pub record Progress : Type 0 where
  pub completed : ℕ
  pub total : ℕ
  pub results : List Slot

abbrev pub is_returned : Ended → Bool
is_returned (returned hash r) = true
is_returned (thrown e) = false

-- !(r instanceof Error)
abbrev pub is_result : Slot → Bool
is_result (finished e) = is_returned e
is_result cancelled = false
is_result broken = false

-- The results of the whole, `none` where onProgress makes it reject, and the calls of onProgress.
abbrev pub Ran : Type 0
Ran = Option (List Slot) × List Progress

abbrev reported_first : List Progress → Ran → Ran
reported_first ps (results, qs) = (results, ps ++ qs)

-- The catch block behind the push of an error, and the rounds that follow.
abbrev after_error : Bool → Bool → List Slot → ℕ → List Progress → Ran → Ran
after_error rejects fail_fast results left calls rest =
    if rejects
    then (none, calls)
    else if fail_fast
    then (some (results ++ replicate left cancelled), calls)
    else reported_first calls rest

-- `breaks` tells which calls of onProgress throw.
module _ (breaks : Progress → Bool) where
  -- The loop of the sequential mode, from an index on, with the results so far. A call of onProgress
  -- that throws behind a result gets its error a place of its own.
  unfoldable pub sequential : Bool → ℕ → ℕ → List Slot → List Ended → Ran
  sequential fail_fast total i results [] = (some results, [])
  sequential fail_fast total i results (e ∷ es) =
      let more = results ++ (finished e ∷ []) in
      let p : Progress = record { completed = suc i; total = total; results = more } in
      let breaks_try = is_returned e && breaks p in
      let after = if breaks_try then more ++ (broken ∷ []) else more in
      let q : Progress = record { completed = suc i; total = total; results = after } in
      let calls = if breaks_try then p ∷ q ∷ [] else p ∷ [] in
      let rest = sequential fail_fast total (suc i) after es in
      if is_returned e && not breaks_try
      then reported_first calls rest
      else after_error (breaks q) fail_fast after (length es) calls rest

  -- The parallel mode.
  unfoldable pub parallel : List Ended → Ran
  parallel es =
      let results = map finished es in
      let p : Progress = record { completed = length es; total = length es; results = results } in
      (if breaks p then none else some results, p ∷ [])

pub data Mode : Type 0 where
  in_sequence : Bool → Mode
  in_parallel : Mode

pub record BatchResult : Type 0 where
  pub results : List Slot
  pub success_count : ℕ
  pub error_count : ℕ
  pub all_successful : Bool

-- results.filter(...).length
unfoldable pub count_results : List Slot → ℕ
count_results [] = 0
count_results (s ∷ ss) = let rest = count_results ss in if is_result s then suc rest else rest

unfoldable pub summed : List Slot → BatchResult
unfolding count_results
summed results =
    let errors = length results - count_results results in
    record {
      results = results;
      success_count = count_results results;
      error_count = errors;
      all_successful = errors == 0;
    }

unfoldable pub summed_if : Option (List Slot) → Option BatchResult
unfolding summed
summed_if none = none
summed_if (some results) = some (summed results)

-- executeBatchTransactions, with the calls of onProgress; `none` where it rejects
unfoldable pub execute_batch_transactions :
    (Progress → Bool) → Mode → List Ended → Option BatchResult × List Progress
unfolding summed_if sequential parallel
execute_batch_transactions breaks (in_sequence fail_fast) es =
    let ran = sequential breaks fail_fast (length es) 0 [] es in (summed_if ran.0, ran.1)
execute_batch_transactions breaks in_parallel es =
    let ran = parallel breaks es in (summed_if ran.0, ran.1)

-- An onProgress that never throws.
abbrev never : Progress → Bool
never p = false

-- The results where a failure stops the batch.
fail_fast_slots : List Ended → List Slot
fail_fast_slots [] = []
fail_fast_slots (e ∷ es) =
    let rest = fail_fast_slots es in
    finished e ∷ (if is_returned e then rest else replicate (length es) cancelled)

slots-sequential :
    (total i : ℕ) (results : List Slot) (es : List Ended)
    → (sequential never false total i results es).0 ≡ some (results ++ map finished es)
unfolding sequential
slots-sequential total i results [] = ap some (sym (append-nil results))
slots-sequential total i results (e ∷ es) =
    let rest =
      slots-sequential total (suc i) (results ++ (finished e ∷ [])) es
      ∙ ap some (append_assoc results (finished e ∷ []) (map finished es)) in
    elim (Bool-cases (is_returned e)) [ inl r ↦ rw r rest | inr r ↦ rw r rest ]

slots-fail_fast :
    (total i : ℕ) (results : List Slot) (es : List Ended)
    → (sequential never true total i results es).0 ≡ some (results ++ fail_fast_slots es)
unfolding sequential fail_fast_slots
slots-fail_fast total i results [] = ap some (sym (append-nil results))
slots-fail_fast total i results (e ∷ es) =
    let rest =
      slots-fail_fast total (suc i) (results ++ (finished e ∷ [])) es
      ∙ ap some (append_assoc results (finished e ∷ []) (fail_fast_slots es)) in
    let stop = ap some (append_assoc results (finished e ∷ []) (replicate (length es) cancelled)) in
    elim (Bool-cases (is_returned e)) [ inl r ↦ rw r rest | inr r ↦ rw r stop ]

-- The results of a mode.
slots : Mode → List Ended → List Slot
slots (in_sequence false) es = map finished es
slots (in_sequence true) es = fail_fast_slots es
slots in_parallel es = map finished es

results-never :
    (mode : Mode) (es : List Ended)
    → (execute_batch_transactions never mode es).0 ≡ some (summed (slots mode es))
unfolding execute_batch_transactions slots parallel
results-never (in_sequence false) es = ap summed_if (slots-sequential (length es) 0 [] es)
results-never (in_sequence true) es = ap summed_if (slots-fail_fast (length es) 0 [] es)
results-never in_parallel es = refl

results-slots :
    (breaks : Progress → Bool) (mode : Mode) (es : List Ended)
    → ((p : Progress) → breaks p ≡ false)
    → (execute_batch_transactions breaks mode es).0 ≡ some (summed (slots mode es))
results-slots breaks mode es h =
    let same : breaks ≡ never = λ i p. h p i in
    ap (λ b. (execute_batch_transactions b mode es).0) same ∙ results-never mode es

length-fail_fast_slots : (es : List Ended) → length (fail_fast_slots es) ≡ length es
unfolding fail_fast_slots
length-fail_fast_slots [] = refl
length-fail_fast_slots (e ∷ es) = elim (Bool-cases (is_returned e)) [
  | inl r ↦ rw r (ap suc (length-fail_fast_slots es))
  | inr r ↦ rw r (ap suc (length-replicate (length es) cancelled))
]

length-slots : (mode : Mode) (es : List Ended) → length (slots mode es) ≡ length es
unfolding slots
length-slots (in_sequence false) es = length-map finished es
length-slots (in_sequence true) es = length-fail_fast_slots es
length-slots in_parallel es = length-map finished es

all-finished : (es : List Ended) → all is_result (map finished es) ≡ all is_returned es
all-finished [] = refl
all-finished (e ∷ es) = ap (λ b. is_returned e && b) (all-finished es)

all-fail_fast_slots : (es : List Ended) → all is_result (fail_fast_slots es) ≡ all is_returned es
unfolding fail_fast_slots
all-fail_fast_slots [] = refl
all-fail_fast_slots (e ∷ es) = elim (Bool-cases (is_returned e)) [
  | inl r ↦ rw r (all-fail_fast_slots es)
  | inr r ↦ rw r refl
]

all-slots : (mode : Mode) (es : List Ended) → all is_result (slots mode es) ≡ all is_returned es
unfolding slots
all-slots (in_sequence false) es = all-finished es
all-slots (in_sequence true) es = all-fail_fast_slots es
all-slots in_parallel es = all-finished es

count_results_le : (ss : List Slot) → count_results ss ≤ length ss
unfolding count_results
count_results_le [] = omega arith
count_results_le (s ∷ ss) = ground (arith, count_results_le ss)

no_errors : (ss : List Slot) → (length ss - count_results ss == 0) ≡ all is_result ss
unfolding count_results
no_errors [] = refl
no_errors (s ∷ ss) = ground (arith, no_errors ss, count_results_le ss)

-- A place for each operation, the counts of them, and whether each operation ended with a result.
pub record IsBatch (es : List Ended) (b : BatchResult) : Type 0 where
  pub places : length b.results ≡ length es
  pub counted : b.success_count + b.error_count ≡ length es
  pub successful : b.all_successful ≡ all is_returned es

summed-IsBatch :
    (ss : List Slot) (es : List Ended)
    → length ss ≡ length es
    → all is_result ss ≡ all is_returned es
    → IsBatch es (summed ss)
unfolding summed
summed-IsBatch ss es l a = record {
  places = l;
  counted = omega (arith, count_results_le ss, l);
  successful = no_errors ss ∙ a;
}

-- Where onProgress does not throw, in each mode a batch gives one place for each operation, in counts
-- of results and errors that make up the operations, and reports success exactly when every operation
-- would end with a result, also where the first failure stops the others from being started.
pub execute_batch_transactions-IsBatch :
    (breaks : Progress → Bool) (mode : Mode) (es : List Ended)
    → ((p : Progress) → breaks p ≡ false)
    → (b : BatchResult) × ((execute_batch_transactions breaks mode es).0 ≡ some b) × IsBatch es b
execute_batch_transactions-IsBatch breaks mode es h = (
  summed (slots mode es),
  results-slots breaks mode es h,
  summed-IsBatch (slots mode es) es (length-slots mode es) (all-slots mode es),
)

-- Where onProgress does not throw, without fail-fast, a sequential batch gives what a parallel one gives
-- for the same executions.
pub execute_batch_transactions-parallel :
    (breaks : Progress → Bool) (es : List Ended)
    → ((p : Progress) → breaks p ≡ false)
    → (execute_batch_transactions breaks (in_sequence false) es).0
      ≡ (execute_batch_transactions breaks in_parallel es).0
unfolding slots
execute_batch_transactions-parallel breaks es h =
    results-slots breaks (in_sequence false) es h ∙ sym (results-slots breaks in_parallel es h)
