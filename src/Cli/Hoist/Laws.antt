-- ===== src/Cli/Hoist/Laws.antt =====
-- What `hoistLeadingGlobalOptions` does to the arguments.
use phala_cloud.Common.{
  Text, Option, none, some, List, [], ◌∷◌, ◌++◌, ◌≡◌, refl, ap, ◌∙◌, sym, subst,
}
use phala_cloud.Cli.Options.{FlagConfig, prepare_flag_config, global_command_options}
use phala_cloud.Cli.Hoist.{
  take_leading, split_command, hoist, hoist_leading_global_options, collect_command_segments,
}
use phala_cloud.Cli.Hoist.Moves.{
  IsWord, split_command-append, split_command-IsWord, collect-split_command, collect-append_flag,
  classify-word, take_leading-append, Leading, none_left, IsAtStop, take_leading-IsAtStop,
  IsHoisted, take_leading-stop, take_leading-Leading, Leading-flag, take_leading-flag,
  take_leading-Leading_all,
}

module _ (cfg : FlagConfig) where
  hoist-nil : (argv : List Text) → (take_leading cfg argv).0 ≡ [] → hoist cfg argv ≡ argv
  unfolding hoist
  hoist-nil argv e = rw (e, hoist)

  hoist-cons :
      (argv ls : List Text) (t : Text)
      → (take_leading cfg argv).0 ≡ t ∷ ls
      → hoist cfg argv
        ≡ (split_command (take_leading cfg argv).1).0
          ++ (t ∷ (ls ++ (split_command (take_leading cfg argv).1).1))
  unfolding hoist
  hoist-cons argv ls t e = rw (e, hoist)

  hoist-IsHoisted : (argv : List Text) → IsHoisted cfg argv (hoist cfg argv)
  hoist-IsHoisted argv = go (take_leading cfg argv).0 refl
    where
      rest : List Text
      rest = (take_leading cfg argv).1

      whole :
          (ls : List Text)
          → (take_leading cfg argv).0 ≡ ls
          → ls ++ ((split_command rest).0 ++ (split_command rest).1) ≡ argv
      whole ls e = rw (← e, split_command-append) (take_leading-append cfg argv)

      go : (ls : List Text) → (take_leading cfg argv).0 ≡ ls → IsHoisted cfg argv (hoist cfg argv)
      go [] e = record {
        leading = [];
        moved = none_left;
        command = (split_command argv).0;
        others = (split_command argv).1;
        before = split_command-append argv;
        all_moved = subst (IsAtStop cfg) (sym (split_command-append argv)) (
            subst (IsAtStop cfg)
              (ap (λ l. l ++ (take_leading cfg argv).1) (sym e) ∙ take_leading-append cfg argv)
              (take_leading-IsAtStop cfg argv));
        after = split_command-append argv ∙ sym (hoist-nil argv e);
        words = split_command-IsWord argv;
        path = rw (hoist-nil argv e) (collect-split_command argv);
      }
      go (t ∷ ls) e = record {
        leading = t ∷ ls;
        moved = subst (Leading cfg) e (take_leading-Leading_all cfg argv);
        command = (split_command rest).0;
        others = (split_command rest).1;
        before = whole (t ∷ ls) e;
        all_moved =
            subst (IsAtStop cfg) (sym (split_command-append rest)) (take_leading-IsAtStop cfg argv);
        after = sym (hoist-cons argv ls t e);
        words = split_command-IsWord rest;
        path = rw (hoist-cons argv ls t e) (
            collect-append_flag (split_command rest).0 t (ls ++ (split_command rest).1)
              (split_command-IsWord rest) (take_leading-flag cfg argv ls t e));
      }

  -- Nothing is moved in front of a word.
  hoist-word : (w : Text) (ts : List Text) → IsWord w → hoist cfg (w ∷ ts) ≡ w ∷ ts
  hoist-word w ts h =
      hoist-nil (w ∷ ts) (
        ap (λ (x : List Text × List Text). x.0)
          (take_leading-stop cfg w ts (classify-word cfg w h)))

  hoist-Leading :
      (w : Text) (ts ls : List Text)
      → IsWord w
      → Leading cfg ls
      → hoist cfg (ls ++ w ∷ ts) ≡ (split_command (w ∷ ts)).0 ++ (ls ++ (split_command (w ∷ ts)).1)
  hoist-Leading w ts [] h l = hoist-word w ts h ∙ sym (split_command-append (w ∷ ts))
  hoist-Leading w ts (t ∷ ls) h l =
      let e = take_leading-Leading cfg w ts (t ∷ ls) h l in
      hoist-cons (t ∷ (ls ++ w ∷ ts)) ls t (ap (λ (x : List Text × List Text). x.0) e)
      ∙ ap
          (λ (x : List Text × List Text).
            (split_command x.1).0 ++ (t ∷ (ls ++ (split_command x.1).1)))
          e

-- The configuration of the global options.
abbrev or_nothing : Option FlagConfig → FlagConfig
or_nothing none = record { spec = []; descriptors = []; negated_lookup = [] }
or_nothing (some c) = c

abbrev pub global_config : FlagConfig
unfolding prepare_flag_config
global_config = or_nothing (prepare_flag_config global_command_options)

hoist_leading_lem :
    (argv : List Text) → hoist_leading_global_options argv ≡ hoist global_config argv
unfolding hoist_leading_global_options
hoist_leading_lem argv = refl

-- The arguments are leading global options with their values, as many as the loop can move, a command
-- path of words and others, in this order; the result is the path, the options and the others, and its command segments are the
-- path.
pub hoist_leading-IsHoisted :
    (argv : List Text) → IsHoisted global_config argv (hoist_leading_global_options argv)
hoist_leading-IsHoisted argv = rw hoist_leading_lem (hoist-IsHoisted global_config argv)

-- Global options, with their values, in front of a command word go behind the command path, and the
-- command segments are those of the arguments without these options.
pub hoist_front_options :
    (ls : List Text) (w : Text) (ts : List Text)
    → IsWord w
    → Leading global_config ls
    → (hoist_leading_global_options (ls ++ w ∷ ts)
        ≡ (split_command (w ∷ ts)).0 ++ (ls ++ (split_command (w ∷ ts)).1))
      × (collect_command_segments (hoist_leading_global_options (ls ++ w ∷ ts))
          ≡ collect_command_segments (w ∷ ts))
hoist_front_options ls w ts h l =
    let e = hoist_leading_lem (ls ++ w ∷ ts) ∙ hoist-Leading global_config w ts ls h l in
    (e, ap collect_command_segments e ∙ same_path ls l)
  where
    same_path :
        (ms : List Text)
        → Leading global_config ms
        → collect_command_segments
            ((split_command (w ∷ ts)).0 ++ (ms ++ (split_command (w ∷ ts)).1))
          ≡ collect_command_segments (w ∷ ts)
    same_path [] k = ap collect_command_segments (split_command-append (w ∷ ts))
    same_path (m ∷ ms) k =
        collect-append_flag (split_command (w ∷ ts)).0 m (ms ++ (split_command (w ∷ ts)).1)
          (split_command-IsWord (w ∷ ts)) (Leading-flag global_config m ms k)
        ∙ sym (collect-split_command (w ∷ ts))
