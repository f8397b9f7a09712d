-- ===== src/Cli/Registry.antt =====
-- cli/src/core/registry.ts: the tree of commands. The nodes are shared objects there and a value
-- here, so a write to a node is a change at its path.
pub mod Register
pub mod Resolve
pub mod Longest
use phala_cloud.Common.{
  ℕ, suc, ◌+◌, Text, Bool, true, false, not, Option, none, some, List, [], ◌∷◌, ◌++◌, if◌then◌else◌,
  is_empty, text_eq, take, drop,
}
use phala_cloud.Common.JsMap

pub record Definition : Type 0 where
  pub path : List Text
  pub aliases : List Text
  pub arguments : List Text

pub record Group : Type 0 where
  pub path : List Text
  pub aliases : List Text

-- CommandNode; its children in a type of their own
mutual
  pub data Node : Type 0 where
    node : Option Definition → Option Group → Children → List (Text × Text) → Node

  pub data Children : Type 0 where
    no_more : Children
    child : Text → Node → Children → Children

abbrev pub command : Node → Option Definition
command (node c g cs as') = c

abbrev pub group : Node → Option Group
group (node c g cs as') = g

abbrev pub children : Node → Children
children (node c g cs as') = cs

abbrev pub alias_map : Node → List (Text × Text)
alias_map (node c g cs as') = as'

-- createNode
abbrev pub create_node : Node
create_node = node none none no_more []

-- node.children.get(segment)
unfoldable pub find_child : Text → Children → Option Node
find_child k no_more = none
find_child k (child j n cs) = if text_eq j k then some n else find_child k cs

-- node.children.set(segment, child)
unfoldable pub set_child : Text → Node → Children → Children
set_child k n no_more = child k n no_more
set_child k n (child j m cs) = if text_eq j k then child j n cs else child j m (set_child k n cs)

child_by_alias : Option Text → Children → Option Node
child_by_alias none cs = none
child_by_alias (some name) cs = if is_empty name then none else find_child name cs

-- getChild
unfoldable pub get_child : Node → Text → Option Node
unfolding find_child child_by_alias JsMap.get
get_child n segment = elim (find_child segment (children n)) [
  | some c ↦ some c
  | none ↦ child_by_alias (JsMap.get segment (alias_map n)) (children n)
]

-- getNode
unfoldable pub get_node : Node → List Text → Option Node
unfolding get_child
get_node n [] = some n
get_node n (s ∷ path) = elim (get_child n s) [ none ↦ none | some c ↦ get_node c path ]

abbrev or_create : Option Node → Node
or_create none = create_node
or_create (some n) = n

-- ensurePath, with a write to the node that it returns
unfoldable pub change_at : List Text → (Node → Node) → Node → Node
unfolding find_child set_child
change_at [] f n = f n
change_at (s ∷ path) f (node c g cs as') =
    node c g (set_child s (change_at path f (or_create (find_child s cs))) cs) as'

abbrev set_command : Definition → Node → Node
set_command d (node c g cs as') = node (some d) g cs as'

abbrev set_group : Group → Node → Node
set_group d (node c g cs as') = node c (some d) cs as'

add_aliases : List Text → Text → List (Text × Text) → List (Text × Text)
unfolding JsMap.set
add_aliases [] canonical m = m
add_aliases (a ∷ as') canonical m = add_aliases as' canonical (JsMap.set a canonical m)

abbrev set_aliases : List Text → Text → Node → Node
set_aliases as' canonical (node c g cs m) = node c g cs (add_aliases as' canonical m)

-- The path without its last segment, and that segment.
split_last : Text → List Text → List Text × Text
split_last s [] = ([], s)
split_last s (t ∷ path) = let (front, last) = split_last t path in (s ∷ front, last)

-- The parent is looked for by `getNode`, which finds what `ensurePath` has made.
alias_at_parent : List Text → List Text → Node → Node
alias_at_parent [] as' root = root
alias_at_parent (s ∷ path) as' root =
    let (front, last) = split_last s path in change_at front (set_aliases as' last) root

-- registerCommand
unfoldable pub register_command : Definition → Node → Node
unfolding change_at alias_at_parent split_last add_aliases
register_command d root = alias_at_parent d.path d.aliases (change_at d.path (set_command d) root)

-- registerGroup
unfoldable pub register_group : Group → Node → Node
unfolding change_at alias_at_parent split_last add_aliases
register_group d root = alias_at_parent d.path d.aliases (change_at d.path (set_group d) root)

pub record Match : Type 0 where
  pub definition : Definition
  pub depth : ℕ

abbrev newer : Option Definition → ℕ → Option Match → Option Match
newer none depth last = last
newer (some d) depth last = some (record { definition = d; depth = depth })

-- The loop of `resolveCommand`: the deepest node with a command on the way.
unfoldable pub walk : Node → List Text → ℕ → Option Match → Option Match
unfolding get_child
walk n [] depth last = last
walk n (s ∷ segments) depth last = elim (get_child n s) [
  | none ↦ last
  | some c ↦ walk c segments (suc depth) (newer (command c) (suc depth) last)
]

pub record Resolved : Type 0 where
  pub definition : Definition
  pub consumed : List Text
  pub remaining : List Text

-- resolveCommand
unfoldable pub resolve_command : Node → List Text → Option Resolved
unfolding walk
resolve_command root segments = elim (walk root segments 0 none) [
  | none ↦ none
  | some m ↦ some (record {
    definition = m.definition;
    consumed = take m.depth segments;
    remaining = drop m.depth segments;
  })
]
