-- ===== src/Shell/Fuel/Parts.antt =====
-- How much of the text the smaller parts of the lexer (parser/shell/lex.go) leave.
use dockerfile.Base.{ℕ, suc, ◌≤◌, Bool, [], ◌∷◌, Option, none, some, arith, length, snoc}
use dockerfile.Base.Text.{Text}
use dockerfile.Shell.Lex.{
  Outcome, ok, err, out_of_fuel, span, process_name, single_quote_loop, is_digit, is_name_char,
}
use dockerfile.Shell.Quote.{
  Round, done, again, State, Step, halt, go, at_end, write_value, add_quoted, add_value,
}

-- The call came to an end, with at most `n` code points left.
abbrev pub Within {ℓ} : {A : Type ℓ} → ℕ → Outcome A → Type 0
Within n (ok _ rest) = length rest ≤ n
Within n (err _ rest) = length rest ≤ n
Within n out_of_fuel = ⊥

pub Within-le {ℓ} : {A : Type ℓ} (m n : ℕ) (o : Outcome A) → m ≤ n → Within m o → Within n o
Within-le m n (ok _ rest) h w = omega arith
Within-le m n (err _ rest) h w = omega arith
Within-le m n out_of_fuel h w = w

span-le : (p : ℕ → Bool) (s : Text) → length (span p s).1 ≤ length s
unfolding span
span-le p [] = omega arith
span-le p (c ∷ s) = ground (arith, span-le p s)

pub process_name-le : (s : Text) → length (process_name s).1 ≤ length s
unfolding process_name
process_name-le [] = omega arith
process_name-le (c ∷ s) = ground (arith, span-le is_digit (c ∷ s), span-le is_name_char (c ∷ s))

pub single_quote_loop-Within :
    (raw : Bool) (s result : Text) → Within (length s) (single_quote_loop raw s result)
unfolding single_quote_loop
single_quote_loop-Within raw [] result = omega arith
single_quote_loop-Within raw (ch ∷ s) result =
    let more = single_quote_loop raw s (snoc result ch) in
    ground (
      arith,
      single_quote_loop-Within raw s (snoc result ch),
      Within-le (length s) (suc (length s)) more,
    )

abbrev pub RoundWithin : ℕ → Round → Type 0
RoundWithin m (done o) = Within m o
RoundWithin m (again rest result) = length rest ≤ m

pub write_value-Within :
    (m : ℕ) (result : Text) (o : Outcome Text) → Within m o → RoundWithin m (write_value result o)
write_value-Within m result (ok v rest) w = w
write_value-Within m result (err e rest) w = w
write_value-Within m result out_of_fuel w = w

abbrev pub StepWithin : ℕ → Step → Type 0
StepWithin m (halt o) = Within m o
StepWithin m (go st) = length st.rest ≤ m

pub add_quoted-Within :
    (m : ℕ) (st : State) (o : Outcome Text) → Within m o → StepWithin m (add_quoted st o)
add_quoted-Within m st (ok v rest) w = w
add_quoted-Within m st (err e rest) w = w
add_quoted-Within m st out_of_fuel w = w

pub add_value-Within :
    (m : ℕ) (st : State) (o : Outcome Text) → Within m o → StepWithin m (add_value st o)
add_value-Within m st (ok v rest) w = w
add_value-Within m st (err e rest) w = w
add_value-Within m st out_of_fuel w = w

pub at_end-Within : (m : ℕ) (stop : Option ℕ) (st : State) → Within m (at_end stop st)
at_end-Within m none st = omega arith
at_end-Within m (some stop) st = omega arith
