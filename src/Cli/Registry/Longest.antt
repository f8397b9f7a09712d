-- ===== src/Cli/Registry/Longest.antt =====
-- That `resolveCommand` finds the longest match.
use phala_cloud.Common.{
  ℕ, zero, suc, ◌+◌, ◌≤◌, ◌<◌, Text, Option, none, some, List, [], ◌∷◌, ◌++◌, ◌≡◌, ◌⊎◌, refl, arith,
  Option-cases, inl, inr, ap, ◌∙◌, sym, length, take, drop, take-append-drop, length-take, subst,
}
use phala_cloud.Cli.Registry.{
  Definition, Node, command, get_child, get_node, Match, walk, newer, Resolved, resolve_command,
}
use phala_cloud.Cli.Registry.Register.{command_of}
use phala_cloud.Cli.Registry.Resolve.{found_at, walk-cons}

-- What the walk has found: the last match before, or the command of a node on the way, and below it
-- on the way there is no other.
record IsDeepest (n : Node) (segments : List Text) (depth : ℕ) (last : Option Match) (m : Match)
    : Type 0 where
  source :
      (last ≡ some m)
      ⊎ ((k : ℕ) × (m.depth ≡ depth + k)
          × (k ≤ length segments)
          × (command_of (get_node n (take k segments)) ≡ some m.definition))
  none_below :
      (j : ℕ)
      → 1 ≤ j
      → m.depth < depth + j
      → j ≤ length segments
      → command_of (get_node n (take j segments)) ≡ none

get_node-cons :
    (n c : Node) (s : Text) (path : List Text)
    → get_child n s ≡ some c
    → get_node n (s ∷ path) ≡ get_node c path
unfolding get_node
get_node-cons n c s path e = rw (e, get_node)

get_node-no_child :
    (n : Node) (s : Text) (path : List Text) → get_child n s ≡ none → get_node n (s ∷ path) ≡ none
unfolding get_node
get_node-no_child n s path e = rw (e, get_node)

walk-stops :
    (n : Node) (s : Text) (segments : List Text) (depth : ℕ) (last : Option Match)
    → get_child n s ≡ none
    → walk n (s ∷ segments) depth last ≡ last
unfolding walk
walk-stops n s segments depth last e = rw (e, walk)

-- The last match is no deeper than the node.
abbrev IsAbove : ℕ → Option Match → Type 0
IsAbove depth last = (m : Match) → last ≡ some m → m.depth ≤ depth

newer-IsAbove :
    (o : Option Definition) (depth : ℕ) (last : Option Match)
    → IsAbove depth last
    → IsAbove (suc depth) (newer o (suc depth) last)
newer-IsAbove none depth last h = λ m e. omega (arith, h m e)
newer-IsAbove (some d) depth last h = λ m e. ground arith

-- One step down: what was found from the child is found from its parent.
IsDeepest-down :
    (n c : Node) (s : Text) (segments : List Text) (depth : ℕ) (last : Option Match) (m : Match)
    → get_child n s ≡ some c
    → IsDeepest c segments (suc depth) (newer (command c) (suc depth) last) m
    → IsDeepest n (s ∷ segments) depth last m
unfolding get_node
IsDeepest-down n c s segments depth last m e h = record {
  source = from h.source;
  none_below = below;
}
  where
    newest :
        (o : Option Definition)
        → command c ≡ o
        → newer o (suc depth) last ≡ some m
        → (last ≡ some m)
          ⊎ ((k : ℕ) × (m.depth ≡ depth + k)
              × (k ≤ length (s ∷ segments))
              × (command_of (get_node n (take k (s ∷ segments))) ≡ some m.definition))
    newest none q p = inl p
    newest (some d) q p =
        inr (
          1,
          ground arith,
          omega arith,
          ap command_of (get_node-cons n c s [] e) ∙ q ∙ ground arith,
        )

    from :
        (newer (command c) (suc depth) last ≡ some m)
          ⊎ ((k : ℕ) × (m.depth ≡ suc depth + k)
              × (k ≤ length segments)
              × (command_of (get_node c (take k segments)) ≡ some m.definition))
        → (last ≡ some m)
          ⊎ ((k : ℕ) × (m.depth ≡ depth + k)
              × (k ≤ length (s ∷ segments))
              × (command_of (get_node n (take k (s ∷ segments))) ≡ some m.definition))
    from (inl p) = newest (command c) refl p
    from (inr (k, d, le, f)) = inr (
      suc k,
      omega arith,
      omega arith,
      ap command_of (get_node-cons n c s (take k segments) e) ∙ f,
    )

    unnamed : (o : Option Definition) → command c ≡ o → m.depth < depth + 1 → command c ≡ none
    unnamed none q b = q
    unnamed (some d) q b = absurd (too_deep (rw q at h.source))
      where
        too_deep :
            (found_at d (suc depth) ≡ some m)
              ⊎ ((k : ℕ) × (m.depth ≡ suc depth + k)
                  × (k ≤ length segments)
                  × (command_of (get_node c (take k segments)) ≡ some m.definition))
            → ⊥
        too_deep (inl p) = ground arith
        too_deep (inr (k, e', le, f)) = omega arith

    below :
        (j : ℕ)
        → 1 ≤ j
        → m.depth < depth + j
        → j ≤ length (s ∷ segments)
        → command_of (get_node n (take j (s ∷ segments))) ≡ none
    below zero a b l = absurd (omega arith)
    below (suc zero) a b l = ap command_of (get_node-cons n c s [] e) ∙ unnamed (command c) refl b
    below (suc (suc j)) a b l =
        ap command_of (get_node-cons n c s (take (suc j) segments) e)
        ∙ h.none_below (suc j) (omega arith) (omega arith) (omega arith)

walk-IsDeepest :
    (segments : List Text) (n : Node) (depth : ℕ) (last : Option Match) (m : Match)
    → IsAbove depth last
    → walk n segments depth last ≡ some m
    → IsDeepest n segments depth last m
walk-IsDeepest [] n depth last m above h = record {
  source = inl (unfold walk in h);
  none_below = λ j a b l. absurd (omega arith);
}
walk-IsDeepest (s ∷ segments) n depth last m above h = elim (Option-cases (get_child n s)) [
  | inl e ↦
      let kept : last ≡ some m = sym (walk-stops n s segments depth last e) ∙ h in
      record { source = inl kept; none_below = nothing e }
  | inr (c, e) ↦ IsDeepest-down n c s segments depth last m e (
      walk-IsDeepest segments c (suc depth) (newer (command c) (suc depth) last) m
        (newer-IsAbove (command c) depth last above)
        (sym (walk-cons n c s segments depth last e) ∙ h))
]
  where
    nothing :
        get_child n s ≡ none
        → (j : ℕ) → 1 ≤ j
        → m.depth < depth + j
        → j ≤ length (s ∷ segments)
        → command_of (get_node n (take j (s ∷ segments))) ≡ none
    nothing e zero a b l = absurd (omega arith)
    nothing e (suc j) a b l = ap command_of (get_node-no_child n s (take j segments) e)

abbrev resolved_of : Match → List Text → Resolved
resolved_of m segments = record {
  definition = m.definition;
  consumed = take m.depth segments;
  remaining = drop m.depth segments;
}

resolve_command-eq-some :
    (root : Node) (segments : List Text) (r : Resolved)
    → resolve_command root segments ≡ some r
    → (m : Match) × (walk root segments 0 none ≡ some m) × (resolved_of m segments ≡ r)
unfolding resolve_command
resolve_command-eq-some root segments r h = elim (Option-cases (walk root segments 0 none)) [
  | inl e ↦ let bad = rw (e, resolve_command) at h in cc
  | inr (m, e) ↦ (m, e, cc (rw (e, resolve_command) at h))
]

-- The segments fall into the consumed ones and the remaining ones, in their order; the consumed ones
-- lead, through aliases where need be, to the node of the command; no longer beginning of the
-- segments leads to a node with a command.
pub record IsLongest (root : Node) (segments : List Text) (r : Resolved) : Type 0 where
  pub whole : r.consumed ++ r.remaining ≡ segments
  pub reached : command_of (get_node root r.consumed) ≡ some r.definition
  pub longest :
      (j : ℕ)
      → length r.consumed < j
      → j ≤ length segments
      → command_of (get_node root (take j segments)) ≡ none

IsDeepest-IsLongest :
    (root : Node) (segments : List Text) (m : Match)
    → IsDeepest root segments 0 none m
    → IsLongest root segments (resolved_of m segments)
IsDeepest-IsLongest root segments m h = go h.source
  where
    go :
        (none ≡ some m)
          ⊎ ((k : ℕ) × (m.depth ≡ 0 + k)
              × (k ≤ length segments)
              × (command_of (get_node root (take k segments)) ≡ some m.definition))
        → IsLongest root segments (resolved_of m segments)
    go (inl p) = cc
    go (inr (k, d, le, f)) =
        let same : k ≡ m.depth = omega arith in
        record {
          whole = take-append-drop m.depth segments;
          reached = ap (λ (i : ℕ). command_of (get_node root (take i segments))) (sym same) ∙ f;
          longest = λ j low high.
              h.none_below j (omega (arith, low))
                (omega (arith, length-take m.depth segments, low, same)) high;
        }

-- Where `resolveCommand` finds a command, the consumed and the remaining segments are the segments in
-- their order, the consumed ones lead, through aliases where need be, to the node of that command,
-- and no longer beginning of the segments leads to a node with a command.
pub resolve_command-IsLongest :
    (root : Node) (segments : List Text) (r : Resolved)
    → resolve_command root segments ≡ some r
    → IsLongest root segments r
resolve_command-IsLongest root segments r h =
    let (m, e, same) = resolve_command-eq-some root segments r h in
    subst (IsLongest root segments) same
      (IsDeepest-IsLongest root segments m (walk-IsDeepest segments root 0 none m (λ i p. cc) e))
