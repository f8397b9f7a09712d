-- ===== src/Cli/Hoist/Moves.antt =====
-- What the loop of `hoistLeadingGlobalOptions` moves.
use phala_cloud.Common.{
  Text, true, false, List, [], ◌∷◌, ◌++◌, ◌≡◌, sym, ◌≢◌, refl, arith, Bool-cases, inl, inr, All, ap,
  ◌∙◌, ◌⊎◌,
}
use phala_cloud.Cli.Options.{FlagConfig}
use phala_cloud.Cli.Hoist.{
  is_flag, Move, stop, one, two, classify, move_one, take_leading, split_command,
  collect_command_segments,
}

-- A word of a command: no flag.
abbrev pub IsWord : Text → Type 0
IsWord t = is_flag t ≡ false

pub split_command-append : (ts : List Text) → (split_command ts).0 ++ (split_command ts).1 ≡ ts
unfolding split_command
split_command-append [] = refl
split_command-append (t ∷ ts) = elim (Bool-cases (is_flag t)) [
  | inl e ↦ rw e
  | inr e ↦ rw e (ap (λ r. t ∷ r) (split_command-append ts))
]

pub split_command-IsWord : (ts : List Text) → All IsWord (split_command ts).0
unfolding split_command
split_command-IsWord [] = tt
split_command-IsWord (t ∷ ts) = elim (Bool-cases (is_flag t)) [
  | inl e ↦ rw e tt
  | inr e ↦ rw e (e, split_command-IsWord ts)
]

pub collect-split_command : (ts : List Text) → collect_command_segments ts ≡ (split_command ts).0
unfolding split_command collect_command_segments
collect-split_command [] = refl
collect-split_command (t ∷ ts) = elim (Bool-cases (is_flag t)) [
  | inl e ↦ rw e
  | inr e ↦ rw e (ap (λ r. t ∷ r) (collect-split_command ts))
]

-- The command words end where a flag stands.
pub collect-append_flag :
    (ws : List Text) (t : Text) (ts : List Text)
    → All IsWord ws
    → is_flag t ≡ true
    → collect_command_segments (ws ++ t ∷ ts) ≡ ws
unfolding collect_command_segments
collect-append_flag [] t ts h f = rw f
collect-append_flag (w ∷ ws) t ts h f = rw h.0 (ap (λ r. w ∷ r) (collect-append_flag ws t ts h.1 f))

module _ (cfg : FlagConfig) where
  pub classify-word : (t : Text) → IsWord t → classify cfg t ≡ stop
  unfolding classify
  classify-word t h = rw h

  Move-cases :
      (t : Text) → (classify cfg t ≡ stop) ⊎ ((classify cfg t ≡ one) ⊎ (classify cfg t ≡ two))
  Move-cases t = go (classify cfg t)
    where
      go : (m : Move) → (m ≡ stop) ⊎ ((m ≡ one) ⊎ (m ≡ two))
      go stop = inl refl
      go one = inr (inl refl)
      go two = inr (inr refl)

  pub take_leading-append :
      (ts : List Text) → (take_leading cfg ts).0 ++ (take_leading cfg ts).1 ≡ ts
  unfolding take_leading
  take_leading-append [] = refl
  take_leading-append (t ∷ []) = ground (arith, Move-cases t)
  take_leading-append (t ∷ v ∷ ts) =
      ground (arith, Move-cases t, take_leading-append (v ∷ ts), take_leading-append ts)

  -- Arguments that the loop moves, each with its value if it takes one.
  pub data Leading : List Text → Type 0 where
    none_left : Leading []
    alone : {t : Text} {ts : List Text} → classify cfg t ≡ one → Leading ts → Leading (t ∷ ts)
    valued :
        {t v : Text} {ts : List Text} → classify cfg t ≡ two → Leading ts → Leading (t ∷ v ∷ ts)

  -- No more can be moved: nothing is left, or the first argument is none that the loop moves, or it
  -- wants a value and is the last.
  abbrev pub IsAtStop : List Text → Type 0
  IsAtStop [] = Unit
  IsAtStop (t ∷ []) = classify cfg t ≢ one
  IsAtStop (t ∷ v ∷ ts) = classify cfg t ≡ stop

  -- The arguments are those moved, those of the command path and the others, in this order, and no
  -- more could be moved.
  pub record IsHoisted (argv out : List Text) : Type 0 where
    pub leading : List Text
    pub moved : Leading leading
    pub command : List Text
    pub others : List Text
    pub before : leading ++ (command ++ others) ≡ argv
    pub all_moved : IsAtStop (command ++ others)
    pub after : command ++ (leading ++ others) ≡ out
    pub words : All IsWord command
    pub path : collect_command_segments out ≡ command

  pub take_leading-stop :
      (t : Text) (u : List Text) → classify cfg t ≡ stop → take_leading cfg (t ∷ u) ≡ ([], t ∷ u)
  unfolding take_leading
  take_leading-stop t [] e = rw (e, take_leading)
  take_leading-stop t (v ∷ u) e = rw (e, take_leading)

  take_leading-one :
      (t : Text) (u : List Text)
      → classify cfg t ≡ one
      → take_leading cfg (t ∷ u) ≡ move_one t (take_leading cfg u)
  unfolding take_leading
  take_leading-one t [] e = rw (e, take_leading)
  take_leading-one t (v ∷ u) e = rw (e, take_leading)

  take_leading-two :
      (t v : Text) (u : List Text)
      → classify cfg t ≡ two
      → take_leading cfg (t ∷ v ∷ u) ≡ move_one t (move_one v (take_leading cfg u))
  unfolding take_leading
  take_leading-two t v u e = rw (e, take_leading)

  pub take_leading-Leading :
      (w : Text) (ts ls : List Text)
      → IsWord w
      → Leading ls
      → take_leading cfg (ls ++ w ∷ ts) ≡ (ls, w ∷ ts)
  unfolding move_one
  take_leading-Leading w ts ls h none_left = take_leading-stop w ts (classify-word w h)
  take_leading-Leading w ts ls h (alone {t} {ts = r} e l) =
      take_leading-one t (r ++ w ∷ ts) e ∙ ap (move_one t) (take_leading-Leading w ts r h l)
  take_leading-Leading w ts ls h (valued {t} {v} {ts = r} e l) =
      take_leading-two t v (r ++ w ∷ ts) e
      ∙ ap (λ x. move_one t (move_one v x)) (take_leading-Leading w ts r h l)

  flag_of_moved : (t : Text) → classify cfg t ≢ stop → is_flag t ≡ true
  flag_of_moved t moved = elim (Bool-cases (is_flag t)) [
    | inl f ↦ f
    | inr f ↦ absurd (moved (classify-word t f))
  ]

  pub Leading-flag : (m : Text) (ms : List Text) → Leading (m ∷ ms) → is_flag m ≡ true
  Leading-flag m ms (alone e l) = flag_of_moved m (λ s. cc)
  Leading-flag m ms (valued e l) = flag_of_moved m (λ s. cc)

  -- What is moved begins with a flag.
  pub take_leading-flag :
      (ts ls : List Text) (t : Text) → (take_leading cfg ts).0 ≡ t ∷ ls → is_flag t ≡ true
  unfolding move_one take_leading
  take_leading-flag [] ls t e = unfold take_leading in cc
  take_leading-flag (u ∷ us) ls t e = elim (Move-cases u) [
    | inl s ↦ let bad = rw (take_leading-stop u us s) at e in cc
    | inr (inl o) ↦
        let same : u ≡ t = cc (rw (take_leading-one u us o) at e) in
        rw (← same) (flag_of_moved u (λ s. cc))
    | inr (inr w) ↦ two_flag us e w
  ]
    where
      two_flag :
          (r : List Text)
          → (take_leading cfg (u ∷ r)).0 ≡ t ∷ ls
          → classify cfg u ≡ two
          → is_flag t ≡ true
      two_flag [] h w = let bad = rw (w, take_leading) at h in cc
      two_flag (v ∷ r) h w =
          let same : u ≡ t = cc (rw (take_leading-two u v r w) at h) in
          rw (← same) (flag_of_moved u (λ s. cc))

  pub take_leading-IsAtStop : (ts : List Text) → IsAtStop (take_leading cfg ts).1
  unfolding move_one take_leading
  take_leading-IsAtStop [] = unfold take_leading in tt
  take_leading-IsAtStop (t ∷ []) = elim (Move-cases t) [
    | inl s ↦ rw (take_leading-stop t [] s) (λ e. let bad = sym s ∙ e in cc bad)
    | inr (inl o) ↦ rw (take_leading-one t [] o) (unfold take_leading in tt)
    | inr (inr w) ↦ rw (w, take_leading) (λ e. let bad = sym w ∙ e in cc bad)
  ]
  take_leading-IsAtStop (t ∷ v ∷ ts) = elim (Move-cases t) [
    | inl s ↦ rw (take_leading-stop t (v ∷ ts) s) s
    | inr (inl o) ↦ rw (take_leading-one t (v ∷ ts) o) (take_leading-IsAtStop (v ∷ ts))
    | inr (inr w) ↦ rw (take_leading-two t v ts w) (take_leading-IsAtStop ts)
  ]

  pub take_leading-Leading_all : (ts : List Text) → Leading (take_leading cfg ts).0
  unfolding move_one take_leading
  take_leading-Leading_all [] = unfold take_leading in none_left
  take_leading-Leading_all (t ∷ []) = elim (Move-cases t) [
    | inl s ↦ rw (take_leading-stop t [] s) none_left
    | inr (inl o) ↦
        rw (take_leading-one t [] o) (unfold take_leading in alone {ts = []} o none_left)
    | inr (inr w) ↦ rw (w, take_leading) none_left
  ]
  take_leading-Leading_all (t ∷ v ∷ ts) = elim (Move-cases t) [
    | inl s ↦ rw (take_leading-stop t (v ∷ ts) s) none_left
    | inr (inl o) ↦ rw (take_leading-one t (v ∷ ts) o) (alone o (take_leading-Leading_all (v ∷ ts)))
    | inr (inr w) ↦ rw (take_leading-two t v ts w) (valued w (take_leading-Leading_all ts))
  ]
