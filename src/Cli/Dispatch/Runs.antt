-- ===== src/Cli/Dispatch/Runs.antt =====
-- What an invocation may run.
use phala_cloud.Common.{
  Text, Bool, true, false, Option, none, some, List, [], ◌∷◌, if◌then◌else◌, ◌≡◌, ◌≢◌, refl, sym,
  ap, ◌∙◌, ◌⊎◌, inl, inr, Bool-cases, Option-cases, length, drop, is_some,
}
use phala_cloud.Cli.Hoist.{hoist_leading_global_options, collect_command_segments}
use phala_cloud.Cli.Registry.{Definition, Node, get_node, Resolved, resolve_command}
use phala_cloud.Cli.Dispatch.{
  Parsed, runs, group_of, node_of, handle_global_request, handle_group_request, unresolved,
  resolved_answer, resolve_or_help, dispatch_hoisted, dispatch, group_answer, global_answer,
  leftover, after_group, asked_for_group, parsed, bad_argument, other_error, no_words,
  ssh_keys_hint, unknown_subcommand,
}

-- The command is the one that the words before the first flag lead to, it gets the arguments behind its
-- words, and words left over only if it takes arguments.
pub record IsRun (root : Node) (argv : List Text) (d : Definition) (rest : List Text) : Type 0 where
  pub resolved : Resolved
  pub found : resolve_command root (collect_command_segments argv) ≡ some resolved
  pub definition : resolved.definition ≡ d
  pub others : rest ≡ drop (length resolved.consumed) argv
  pub taken : (resolved.remaining ≡ []) ⊎ (no_words d.arguments ≡ false)

group_answer-ne-runs :
    (path : List Text) (q : Parsed) (d : Definition) (rest : List Text)
    → group_answer path q ≢ runs d rest
unfolding group_answer
group_answer-ne-runs path (parsed true true words) d rest = λ e. cc
group_answer-ne-runs path (parsed true false words) d rest = λ e. cc
group_answer-ne-runs path (parsed false true words) d rest = λ e. cc
group_answer-ne-runs path (parsed false false []) d rest = λ e. cc
group_answer-ne-runs path (parsed false false (w ∷ ws)) d rest = λ e. cc
group_answer-ne-runs path (bad_argument m) d rest = λ e. cc
group_answer-ne-runs path (other_error m) d rest = λ e. cc

global_answer-ne-runs :
    (q : Parsed) (d : Definition) (rest : List Text) → global_answer q ≢ runs d rest
unfolding global_answer
global_answer-ne-runs (parsed true true words) d rest = λ e. cc
global_answer-ne-runs (parsed true false words) d rest = λ e. cc
global_answer-ne-runs (parsed false true words) d rest = λ e. cc
global_answer-ne-runs (parsed false false []) d rest = λ e. cc
global_answer-ne-runs (parsed false false (w ∷ ws)) d rest = λ e. cc
global_answer-ne-runs (bad_argument m) d rest = λ e. cc
global_answer-ne-runs (other_error m) d rest = λ e. cc

hint_or-ne-runs :
    (b : Bool) (w : Text) (words path : List Text) (d : Definition) (rest : List Text)
    → (if b then ssh_keys_hint w else unknown_subcommand words path) ≢ runs d rest
hint_or-ne-runs true w words path d rest = λ e. cc
hint_or-ne-runs false w words path d rest = λ e. cc

leftover-ne-runs :
    (consumed : List Text) (w : Text) (ws : List Text) (d : Definition) (rest : List Text)
    → leftover consumed w ws ≢ runs d rest
unfolding leftover
leftover-ne-runs consumed w ws d rest = hint_or-ne-runs _ w (w ∷ ws) consumed d rest

module _ (parse : List Text → Parsed) (root : Node) (argv : List Text) where
  unresolved-ne-runs :
      (segments : List Text) (d : Definition) (rest : List Text)
      → unresolved parse root argv segments ≢ runs d rest
  unfolding unresolved handle_global_request handle_group_request
  unresolved-ne-runs [] d rest = global_answer-ne-runs (parse argv) d rest
  unresolved-ne-runs (s ∷ []) d rest = global_answer-ne-runs (parse argv) d rest
  unresolved-ne-runs (s ∷ t ∷ segments) d rest =
      elim (Bool-cases (is_some (group_of (get_node root (s ∷ []))))) [
        | inl e ↦ rw e (group_answer-ne-runs (s ∷ []) (parse (drop 1 argv)) d rest)
        | inr e ↦ rw e (global_answer-ne-runs (parse argv) d rest)
      ]

  resolved-IsRun :
      (r : Resolved) (d : Definition) (rest : List Text)
      → resolve_command root (collect_command_segments argv) ≡ some r
      → (remaining : List Text) → r.remaining ≡ remaining
      → resolved_answer parse argv r ≡ runs d rest
      → IsRun root argv d rest
  unfolding resolved_answer
  resolved-IsRun r d rest f [] q h =
      let same = rw (q, resolved_answer) at h in
      record { resolved = r; found = f; definition = cc; others = cc; taken = inl q }
  resolved-IsRun r d rest f (w ∷ ws) q h = elim (Bool-cases (no_words r.definition.arguments)) [
    | inl e ↦
        let bad = rw (q, e, resolved_answer) at h in
        absurd (leftover-ne-runs r.consumed w ws d rest bad)
    | inr e ↦
        let same = rw (q, e, resolved_answer) at h in
        let definition : r.definition ≡ d = cc in
        record {
          resolved = r;
          found = f;
          definition = definition;
          others = cc;
          taken = inr (ap (λ (x : Definition). no_words x.arguments) (sym definition) ∙ e);
        }
  ]

  resolve_or_help-IsRun :
      (d : Definition) (rest : List Text)
      → resolve_or_help parse root argv (collect_command_segments argv) ≡ runs d rest
      → IsRun root argv d rest
  unfolding resolve_or_help
  resolve_or_help-IsRun d rest h =
      elim (Option-cases (resolve_command root (collect_command_segments argv))) [
        | inl e ↦
            let bad = rw (e, resolve_or_help) at h in
            absurd (unresolved-ne-runs (collect_command_segments argv) d rest bad)
        | inr (r, e) ↦ resolved-IsRun r d rest e r.remaining refl (rw (e, resolve_or_help) at h)
      ]

  after_group-IsRun :
      (asked : Option (Option Text)) (d : Definition) (rest : List Text)
      → after_group parse root argv (collect_command_segments argv) asked ≡ runs d rest
      → IsRun root argv d rest
  unfolding after_group handle_group_request
  after_group-IsRun none d rest h = resolve_or_help-IsRun d rest h
  after_group-IsRun (some none) d rest h = absurd (
      group_answer-ne-runs (collect_command_segments argv)
        (parse (drop (length (collect_command_segments argv)) argv)) d rest h)
  after_group-IsRun (some (some m)) d rest h = absurd (cc)

  dispatch_hoisted-IsRun :
      (d : Definition) (rest : List Text)
      → dispatch_hoisted parse root argv (collect_command_segments argv) ≡ runs d rest
      → IsRun root argv d rest
  unfolding dispatch_hoisted
  dispatch_hoisted-IsRun d rest h =
      elim (Bool-cases (is_some (group_of (node_of parse root (collect_command_segments argv))))) [
        | inl e ↦
            after_group-IsRun
              (asked_for_group (parse (drop (length (collect_command_segments argv)) argv))) d rest
              (rw (e, dispatch_hoisted) at h)
        | inr e ↦ resolve_or_help-IsRun d rest (rw (e, dispatch_hoisted) at h)
      ]

-- Whatever runs is the command that the words of the hoisted arguments before their first flag lead to;
-- it gets the arguments behind its words; and if words are left over, it takes arguments.
pub dispatch-IsRun :
    (parse : List Text → Parsed) (root : Node) (argv : List Text) (d : Definition)
    (rest : List Text)
    → dispatch parse root argv ≡ runs d rest
    → IsRun root (hoist_leading_global_options argv) d rest
unfolding dispatch
dispatch-IsRun parse root argv d rest h =
    dispatch_hoisted-IsRun parse root (hoist_leading_global_options argv) d rest h
