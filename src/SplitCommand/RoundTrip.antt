-- ===== src/SplitCommand/RoundTrip.antt =====
-- `splitCommand` (parser/split_command.go) on lines whose flags were escaped.
use dockerfile.Base.{
  ℕ, false, List, [], ◌∷◌, ◌++◌, some, ◌≡◌, refl, ◌∙◌, map, arith, snoc, All, append_assoc,
}
use dockerfile.Base.Text.{
  Text, is_space, trim_space, trim_space-around, AllOf, HeadNot, trim_left-HeadNot,
  trim_space-fixed,
}
use dockerfile.SplitCommand.{
  extract_builder_flags, is_blank, split_whitespace, Split, split_command,
}
use dockerfile.SplitCommand.Flags.{flag, render, IsBody, NoFlag, extract_builder_flags-render}

split_whitespace-word :
    (cmd rest : Text)
    → All (λ c. is_blank c ≡ false) cmd
    → HeadNot is_blank rest
    → split_whitespace (cmd ++ b' ' ∷ rest) ≡ (cmd, some rest)
unfolding split_whitespace
split_whitespace-word [] rest h k = rw (trim_left-HeadNot is_blank rest k)
split_whitespace-word (c ∷ cmd) rest h k = ground (arith, split_whitespace-word cmd rest h.1 k)

blank→space : (c : ℕ) → is_space c ≡ false → is_blank c ≡ false
unfolding is_space is_blank
blank→space c h = ground arith

NoFlag-HeadNot :
    (bodies : List Text) (rest : Text) → NoFlag rest → HeadNot is_blank (render bodies rest)
NoFlag-HeadNot [] [] h = tt
NoFlag-HeadNot [] (c ∷ rest) h = blank→space c h.0
NoFlag-HeadNot (body ∷ bodies) rest h = unfold is_blank in refl

render-snoc :
    (bodies : List Text) (init : Text) (last : ℕ)
    → render bodies (snoc init last) ≡ snoc (render bodies init) last
render-snoc [] init last = refl
render-snoc (body ∷ bodies) init last = rw (render-snoc bodies init last, append_assoc)

All-blank : (s : Text) → All (λ d. is_space d ≡ false) s → All (λ d. is_blank d ≡ false) s
All-blank [] h = tt
All-blank (c ∷ s) h = (blank→space c h.0, All-blank s h.1)

abbrev split_args : Text → Text → Split
split_args cmd line = record {
  cmd = cmd;
  flags = (extract_builder_flags line).1;
  args = trim_space (extract_builder_flags line).0;
}

split_command_args :
    (line cmd rest : Text)
    → trim_space line ≡ line
    → split_whitespace line ≡ (cmd, some rest)
    → split_command line ≡ split_args cmd rest
split_command_args line cmd rest e f = unfold split_command in rw (e, f)

split_args_flags :
    (cmd rest args : Text) (flags : List Text)
    → extract_builder_flags rest ≡ (args, flags)
    → trim_space args ≡ args
    → split_args cmd rest ≡ record { cmd = cmd; flags = flags; args = args }
split_args_flags cmd rest args flags e f = rw (e, f)

HeadNot-NoFlag : (rest : Text) → NoFlag rest → HeadNot is_space rest
HeadNot-NoFlag [] h = tt
HeadNot-NoFlag (c ∷ rest) h = h.0

-- A line of a command word, escaped flags and arguments is split into exactly these, if the word
-- is not empty and holds no space, each flag is `--` with a body that is not empty and of ASCII
-- characters, and the arguments begin with neither a space nor `--` and end in something other than a space.
pub split_command-render :
    (c : ℕ) (cs : Text) (bodies : List Text) (init : Text) (last : ℕ)
    → All (λ d. is_space d ≡ false) (c ∷ cs)
    → All IsBody bodies
    → NoFlag (snoc init last)
    → is_space last ≡ false
    → split_command ((c ∷ cs) ++ b' ' ∷ render bodies (snoc init last))
      ≡ record { cmd = c ∷ cs; flags = map flag bodies; args = snoc init last }
split_command-render c cs bodies init last h hb hn hl =
    let args = snoc init last in
    let line = (c ∷ cs) ++ b' ' ∷ render bodies args in
    let ends : line ≡ snoc ((c ∷ cs) ++ b' ' ∷ render bodies init) last =
      rw (render-snoc bodies init last, append_assoc) in
    let trimmed : trim_space line ≡ line =
      rw ends (trim_space-fixed ((c ∷ cs) ++ b' ' ∷ render bodies init) last h.0 hl) in
    let cut : split_whitespace line ≡ (c ∷ cs, some (render bodies args)) =
      split_whitespace-word (c ∷ cs) (render bodies args) (All-blank (c ∷ cs) h)
        (NoFlag-HeadNot bodies args hn) in
    split_command_args line (c ∷ cs) (render bodies args) trimmed cut
    ∙ split_args_flags (c ∷ cs) (render bodies args) args (map flag bodies)
        (extract_builder_flags-render bodies args hb hn)
        (trim_space-fixed init last (HeadNot-NoFlag args hn) hl)

-- Spaces before and behind the line do not change how it is split.
pub split_command-around :
    (pre line post : Text)
    → AllOf is_space pre
    → AllOf is_space post
    → split_command (pre ++ (line ++ post)) ≡ split_command line
unfolding split_command
split_command-around pre line post h k = rw (trim_space-around pre line post h k)
