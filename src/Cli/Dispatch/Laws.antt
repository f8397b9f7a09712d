-- ===== src/Cli/Dispatch/Laws.antt =====
-- What runs, and on which arguments.
use phala_cloud.Common.{
  Text, true, none, some, List, [], ◌∷◌, ◌++◌, ◌≡◌, ◌≢◌, refl, ap, ◌∙◌, All, length, drop, subst,
}
use phala_cloud.Cli.Hoist.{
  is_flag, hoist_leading_global_options, collect_command_segments, split_command,
}
use phala_cloud.Cli.Hoist.Moves.{Leading, IsWord, collect-split_command}
use phala_cloud.Cli.Hoist.Laws.{global_config, hoist_front_options}
use phala_cloud.Cli.Registry.{Definition, Node, get_node, register_command, resolve_command}
use phala_cloud.Cli.Registry.Resolve.{resolve-register_command}
use phala_cloud.Cli.Dispatch.{
  Parsed, runs, group_of, node_of, resolved_answer, resolve_or_help, dispatch_hoisted, dispatch,
}

-- No words, or words that start with a flag.
abbrev pub StartsWithFlag : List Text → Type 0
StartsWithFlag [] = Unit
StartsWithFlag (t ∷ ts) = is_flag t ≡ true

split_command-words :
    (ws flags : List Text)
    → All IsWord ws
    → StartsWithFlag flags
    → split_command (ws ++ flags) ≡ (ws, flags)
unfolding split_command
split_command-words [] [] h f = refl
split_command-words [] (t ∷ ts) h f = rw f refl
split_command-words (w ∷ ws) flags (h, hs) f = rw (h, split_command-words ws flags hs f) refl

drop-append : (xs ys : List Text) → drop (length xs) (xs ++ ys) ≡ ys
drop-append [] ys = refl
drop-append (x ∷ xs) ys = drop-append xs ys

dispatch_found :
    (parse : List Text → Parsed) (root : Node) (argv segments : List Text) (d : Definition)
    → group_of (node_of parse root segments) ≡ none
    → resolve_command root segments
      ≡ some (record { definition = d; consumed = segments; remaining = [] })
    → dispatch_hoisted parse root argv segments ≡ runs d (drop (length segments) argv)
unfolding dispatch_hoisted resolve_or_help resolved_answer
dispatch_found parse root argv segments d g r = rw (g, r, dispatch_hoisted, resolve_or_help) refl

-- After `registerCommand`, global options with their values, then the words of the command's path, then
-- flags with what follows them, run this command on the options, the flags and what follows, where no
-- group stands at the path.
pub dispatch-register_command :
    (parse : List Text → Parsed) (d : Definition) (root : Node) (ls : List Text) (w : Text)
    (ws flags : List Text)
    → d.path ≡ w ∷ ws
    → All IsWord (w ∷ ws)
    → Leading global_config ls
    → StartsWithFlag flags
    → group_of (get_node (register_command d root) (w ∷ ws)) ≡ none
    → dispatch parse (register_command d root) (ls ++ w ∷ (ws ++ flags)) ≡ runs d (ls ++ flags)
unfolding dispatch
dispatch-register_command parse d root ls w ws flags p (h, hs) l f g =
    let split = split_command-words (w ∷ ws) flags (h, hs) f in
    let (hoisted, path) = hoist_front_options ls w (ws ++ flags) h l in
    let front : hoist_leading_global_options (ls ++ w ∷ (ws ++ flags)) ≡ (w ∷ ws) ++ (ls ++ flags) =
      hoisted ∙ ap (λ (x : List Text × List Text). x.0 ++ (ls ++ x.1)) split in
    let words : collect_command_segments (hoist_leading_global_options (ls ++ w ∷ (ws ++ flags)))
        ≡ w ∷ ws =
      path
      ∙ collect-split_command (w ∷ (ws ++ flags))
      ∙ ap (λ (x : List Text × List Text). x.0) split in
    let named : d.path ≢ [] = λ e. cc in
    let resolved =
      subst
        (λ q.
          resolve_command (register_command d root) q
          ≡ some (record { definition = d; consumed = q; remaining = [] }))
        p (resolve-register_command d root named) in
    ap
      (λ s.
        dispatch_hoisted parse (register_command d root)
          (hoist_leading_global_options (ls ++ w ∷ (ws ++ flags))) s)
      words
    ∙ dispatch_found parse (register_command d root)
        (hoist_leading_global_options (ls ++ w ∷ (ws ++ flags))) (w ∷ ws) d g resolved
    ∙ ap (λ a. runs d (drop (length (w ∷ ws)) a)) front
    ∙ ap (runs d) (drop-append (w ∷ ws) (ls ++ flags))
