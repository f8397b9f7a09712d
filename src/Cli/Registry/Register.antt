-- ===== src/Cli/Registry/Register.antt =====
-- What a registration does to the commands in the tree.
use phala_cloud.Common.{
  Text, Bool, true, false, ◌&&◌, Option, none, some, List, [], ◌∷◌, ◌≡◌, refl, if◌then◌else◌,
  text_eq, text_eq_iff, text_eq_refl, arith, Bool-cases, inl, inr, ap, ◌∙◌, sym,
}
use phala_cloud.Cli.Registry.{
  Definition, Node, node, Children, no_more, child, command, children, create_node, find_child,
  set_child, or_create, change_at, set_command, set_aliases, alias_at_parent, split_last,
  register_command,
}

unfoldable pub texts_eq : List Text → List Text → Bool
texts_eq [] [] = true
texts_eq [] (t ∷ ts) = false
texts_eq (s ∷ ss) [] = false
texts_eq (s ∷ ss) (t ∷ ts) = text_eq s t && texts_eq ss ts

pub texts_eq_refl : (ts : List Text) → texts_eq ts ts ≡ true
unfolding texts_eq
texts_eq_refl [] = refl
texts_eq_refl (t ∷ ts) = rw text_eq_refl (texts_eq_refl ts)

abbrev pub command_of : Option Node → Option Definition
command_of none = none
command_of (some n) = command n

-- The command at a path that is followed by the names of children, with no alias.
unfoldable pub command_at : Node → List Text → Option Definition
command_at n [] = command n
command_at n (s ∷ path) = elim (find_child s (children n)) [
  | none ↦ none
  | some c ↦ command_at c path
]

find_child-set_child :
    (k i : Text) (n : Node) (cs : Children)
    → find_child i (set_child k n cs) ≡ (if text_eq k i then some n else find_child i cs)
unfolding find_child set_child
find_child-set_child k i n no_more = refl
find_child-set_child k i n (child j m cs) =
    ground (arith, find_child-set_child k i n cs, text_eq_iff j k, text_eq_iff j i, text_eq_iff k i)

command_at-create_node : (path : List Text) → command_at create_node path ≡ none
unfolding command_at find_child
command_at-create_node [] = refl
command_at-create_node (s ∷ path) = refl

command_at-cons :
    (n : Node) (s : Text) (path : List Text)
    → command_at n (s ∷ path) ≡ command_at (or_create (find_child s (children n))) path
unfolding command_at
command_at-cons n s path = go (find_child s (children n))
  where
    go :
        (o : Option Node)
        → elim o [ none ↦ none | some c ↦ command_at c path ] ≡ command_at (or_create o) path
    go none = sym (command_at-create_node path)
    go (some c) = refl

-- A change at a path, seen at the path behind one of its first segment's siblings.
children-change_at :
    (s i : Text) (path : List Text) (f : Node → Node) (n : Node)
    → find_child i (children (change_at (s ∷ path) f n)) ≡ (
        if text_eq s i
        then some (change_at path f (or_create (find_child s (children n))))
        else find_child i (children n))
unfolding change_at
children-change_at s i path f (node c g cs as') = find_child-set_child s i _ cs

command_at-change_nil :
    (s : Text) (path : List Text) (f : Node → Node) (n : Node)
    → command_at (change_at (s ∷ path) f n) [] ≡ command_at n []
unfolding change_at command_at
command_at-change_nil s path f (node c g cs as') = refl

-- A change that `effect` describes at its own node, described at every path.
module _ (f : Node → Node) (effect : Bool → Option Definition → Option Definition)
    (at_node : (n : Node) (q : List Text)
      → command_at (f n) q ≡ effect (texts_eq [] q) (command_at n q))
    (elsewhere : (o : Option Definition) → effect false o ≡ o) where
  command_at-change_at :
      (p q : List Text) (n : Node)
      → command_at (change_at p f n) q ≡ effect (texts_eq p q) (command_at n q)
  unfolding texts_eq
  command_at-change_at [] q n = unfold change_at in at_node n q
  command_at-change_at (s ∷ p) [] n =
      command_at-change_nil s p f n ∙ sym (elsewhere (command_at n []))
  command_at-change_at (s ∷ p) (t ∷ q) n =
      command_at-cons (change_at (s ∷ p) f n) t q
      ∙ ap (λ (o : Option Node). command_at (or_create o) q) (children-change_at s t p f n)
      ∙ (elim (Bool-cases (text_eq s t)) [
        | inl e ↦
            let same : s ≡ t = (text_eq_iff s t).0 e in
            rw e (
              command_at-change_at p q (or_create (find_child s (children n)))
              ∙ ap (effect (texts_eq p q)) (rw same (sym (command_at-cons n t q))))
        | inr e ↦ rw e (sym (command_at-cons n t q) ∙ sym (elsewhere (command_at n (t ∷ q))))
      ])

abbrev put_command : Definition → Bool → Option Definition → Option Definition
put_command d b o = if b then some d else o

set_command_lem :
    (d : Definition) (n : Node) (q : List Text)
    → command_at (set_command d n) q ≡ put_command d (texts_eq [] q) (command_at n q)
unfolding command_at texts_eq
set_command_lem d (node c g cs as') [] = refl
set_command_lem d (node c g cs as') (t ∷ q) = refl

abbrev keep : Bool → Option Definition → Option Definition
keep b o = o

set_aliases_lem :
    (as' : List Text) (name : Text) (n : Node) (q : List Text)
    → command_at (set_aliases as' name n) q ≡ keep (texts_eq [] q) (command_at n q)
unfolding command_at
set_aliases_lem as' name (node c g cs m) [] = refl
set_aliases_lem as' name (node c g cs m) (t ∷ q) = refl

command_at-alias_at_parent :
    (path as' : List Text) (root : Node) (q : List Text)
    → command_at (alias_at_parent path as' root) q ≡ command_at root q
unfolding alias_at_parent
command_at-alias_at_parent [] as' root q = refl
command_at-alias_at_parent (s ∷ path) as' root q =
    command_at-change_at (set_aliases as' (split_last s path).1) keep
      (set_aliases_lem as' (split_last s path).1) (λ o. refl) (split_last s path).0 q root

-- After `registerCommand` the command at the definition's path is that definition, and the command at
-- every other path is what it was.
pub command_at-register_command :
    (d : Definition) (root : Node) (q : List Text)
    → command_at (register_command d root) q
      ≡ (if texts_eq d.path q then some d else command_at root q)
unfolding register_command
command_at-register_command d root q =
    command_at-alias_at_parent d.path d.aliases (change_at d.path (set_command d) root) q
    ∙ command_at-change_at (set_command d) (put_command d) (set_command_lem d) (λ o. refl) d.path q
        root
