-- ===== src/Cli/Registry/Resolve.antt =====
-- What `resolveCommand` finds.
use phala_cloud.Common.{
  ℕ, suc, ◌+◌, Text, Option, none, some, List, [], ◌∷◌, ◌≡◌, ◌≢◌, refl, arith, Option-cases, inl,
  inr, ap, ◌∙◌, length, take, drop,
}
use phala_cloud.Cli.Registry.{
  Definition, Node, command, children, find_child, get_child, register_command, Match, walk, newer,
  resolve_command,
}
use phala_cloud.Cli.Registry.Register.{command_at, command_at-register_command, texts_eq_refl}

get_child_of_find :
    (n c : Node) (s : Text) → find_child s (children n) ≡ some c → get_child n s ≡ some c
unfolding get_child
get_child_of_find n c s e = rw (e, get_child)

command_at-eq-some :
    (n : Node) (s : Text) (path : List Text) (d : Definition)
    → command_at n (s ∷ path) ≡ some d
    → (c : Node) × (get_child n s ≡ some c) × (command_at c path ≡ some d)
unfolding command_at
command_at-eq-some n s path d h = elim (Option-cases (find_child s (children n))) [
  | inl e ↦ let bad = rw (e, command_at) at h in cc
  | inr (c, e) ↦ (c, get_child_of_find n c s e, rw (e, command_at) at h)
]

abbrev pub found_at : Definition → ℕ → Option Match
found_at d depth = some (record { definition = d; depth = depth })

pub walk-cons :
    (n c : Node) (s : Text) (segments : List Text) (depth : ℕ) (last : Option Match)
    → get_child n s ≡ some c
    → walk n (s ∷ segments) depth last
      ≡ walk c segments (suc depth) (newer (command c) (suc depth) last)
unfolding walk
walk-cons n c s segments depth last e = rw (e, walk)

-- A command that stands at a path of child names is the deepest on that path.
walk_of_command_at :
    (n : Node) (s : Text) (path : List Text) (depth : ℕ) (last : Option Match) (d : Definition)
    → command_at n (s ∷ path) ≡ some d
    → walk n (s ∷ path) depth last ≡ found_at d (depth + length (s ∷ path))
walk_of_command_at n s [] depth last d h =
    let (c, e, here) = command_at-eq-some n s [] d h in
    walk-cons n c s [] depth last e
    ∙ (unfold walk command_at in
        (ap (λ (o : Option Definition). newer o (suc depth) last) here
          ∙ ap (found_at d) (omega arith)))
walk_of_command_at n s (t ∷ path) depth last d h =
    let (c, e, there) = command_at-eq-some n s (t ∷ path) d h in
    walk-cons n c s (t ∷ path) depth last e
    ∙ walk_of_command_at c t path (suc depth) (newer (command c) (suc depth) last) d there
    ∙ ap (found_at d) (omega arith)

take_all : (ts : List Text) → take (length ts) ts ≡ ts
take_all [] = refl
take_all (t ∷ ts) = ap (λ r. t ∷ r) (take_all ts)

drop_all : (ts : List Text) → drop (length ts) ts ≡ []
drop_all [] = refl
drop_all (t ∷ ts) = drop_all ts

resolve_of_command_at :
    (root : Node) (s : Text) (path : List Text) (d : Definition)
    → command_at root (s ∷ path) ≡ some d
    → resolve_command root (s ∷ path)
      ≡ some (record { definition = d; consumed = s ∷ path; remaining = [] })
unfolding resolve_command
resolve_of_command_at root s path d h =
    let full : 0 + length (s ∷ path) ≡ length (s ∷ path) = omega arith in
    rw (walk_of_command_at root s path 0 none d h ∙ ap (found_at d) full, resolve_command)
      (rw (take_all path, drop_all path))

-- After `registerCommand` with a path that is not empty, `resolveCommand` at that path finds the
-- definition, with the whole path consumed and nothing remaining.
pub resolve-register_command :
    (d : Definition) (root : Node)
    → d.path ≢ []
    → resolve_command (register_command d root) d.path
      ≡ some (record { definition = d; consumed = d.path; remaining = [] })
resolve-register_command d root h = go d.path refl
  where
    go :
        (p : List Text)
        → d.path ≡ p
        → resolve_command (register_command d root) p
          ≡ some (record { definition = d; consumed = p; remaining = [] })
    go [] e = absurd (h e)
    go (s ∷ p) e =
        resolve_of_command_at (register_command d root) s p d
          (command_at-register_command d root (s ∷ p) ∙ rw e (rw texts_eq_refl))
