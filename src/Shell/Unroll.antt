-- ===== src/Shell/Unroll.antt =====
-- One round of the loop of `processStopOn`, as an equation.
use dockerfile.Base.{◌+◌, none, ap, length, ℕ, suc, List, ◌∷◌, Option, some, ◌≡◌, refl}
use dockerfile.Base.Text.{Text}
use dockerfile.Shell.Env.{Env}
use dockerfile.Shell.Lex.{Lex, Outcome}
use dockerfile.Shell.Quote.{
  wrap, skip_mark, process, State, Step, halt, go, stop_round, stop_loop, begin,
}

module _ (lex : Lex) (env : Env) where
  -- `processStopOn('}')`, as a round calls it
  abbrev pub closing : ℕ → Text → Outcome (Text × List Text)
  closing f t = stop_loop lex env f (some b'}') t (begin lex env t)

  abbrev pub after : ℕ → Option ℕ → Step → Outcome (Text × List Text)
  after f stop r = elim r [ halt o ↦ o | go st ↦ stop_loop lex env f stop st.rest st ]

  pub stop_loop_step :
      (f : ℕ) (stop : Option ℕ) (ch : ℕ) (rest : Text) (st : State)
      → stop_loop lex env (suc f) stop (ch ∷ rest) st
        ≡ after f stop (stop_round lex env f (closing f) stop ch rest st)
  unfolding stop_loop
  stop_loop_step f stop ch rest st = refl

pub process_loop :
    (lex : Lex) (word : Text) (env : Env) (f : ℕ)
    → length (skip_mark word) + 1 ≡ f
    → process lex word env
      ≡ wrap word (stop_loop lex env f none (skip_mark word) (begin lex env (skip_mark word)))
unfolding process
process_loop lex word env f e =
    ap (λ n. wrap word (stop_loop lex env n none (skip_mark word) (begin lex env (skip_mark word))))
      e
