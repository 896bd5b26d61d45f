-- ===== src/SplitCommand/Bounds.antt =====
-- The arguments of a line are shorter than the line.
use dockerfile.Base.{
  ℕ, suc, ◌≤◌, ◌<◌, [], ◌∷◌, Option, none, some, ◌≡◌, refl, ◌⊎◌, inl, inr, arith, length, Bool,
}
use dockerfile.Base.Text.{Text, is_space, trim_space, trim_left, trim_right, keep_before}
use dockerfile.SplitCommand.{
  Phase, in_spaces, in_word, in_quote, Scan, Move, stop, advance, advance_two, step, finish, scan,
  start, extract_builder_flags, is_blank, split_whitespace, split_command, with_args,
}

trim_left-le : (p : ℕ → Bool) (s : Text) → length (trim_left p s) ≤ length s
unfolding trim_left
trim_left-le p [] = omega arith
trim_left-le p (c ∷ s) = ground (arith, trim_left-le p s)

keep_before-le : (p : ℕ → Bool) (c : ℕ) (s : Text) → length (keep_before p c s) ≤ suc (length s)
keep_before-le p c [] = ground arith
keep_before-le p c (d ∷ s) = omega arith

trim_right-le : (p : ℕ → Bool) (s : Text) → length (trim_right p s) ≤ length s
unfolding trim_right
trim_right-le p [] = omega arith
trim_right-le p (c ∷ s) = omega (arith, trim_right-le p s, keep_before-le p c (trim_right p s))

trim_space-le : (s : Text) → length (trim_space s) ≤ length s
unfolding trim_space
trim_space-le s =
    omega (arith, trim_right-le is_space (trim_left is_space s), trim_left-le is_space s)

abbrev MoveWithin : ℕ → Move → Type 0
MoveWithin n (stop rest _) = length rest ≤ n
MoveWithin n _ = Unit

step-MoveWithin :
    (p : Phase) (s : Scan) (c : ℕ) (rest : Text) → MoveWithin (suc (length rest)) (step p s c rest)
unfolding step
step-MoveWithin in_spaces s c [] = ground arith
step-MoveWithin in_spaces s c (d ∷ rest) = ground arith
step-MoveWithin in_word s c [] = ground arith
step-MoveWithin in_word s c (d ∷ rest) = ground arith
step-MoveWithin in_quote s c [] = ground arith
step-MoveWithin in_quote s c (d ∷ rest) = ground arith

finish-le : (p : Phase) (s : Scan) (n : ℕ) → length (finish p s).0 ≤ n
unfolding finish
finish-le in_spaces s n = omega arith
finish-le in_word s n = omega arith
finish-le in_quote s n = omega arith

scan_last-le :
    (c : ℕ) (s : Scan) (m : Move)
    → MoveWithin 1 m
    → step s.phase s c [] ≡ m
    → length (scan (c ∷ []) s).0 ≤ 1
unfolding scan
scan_last-le c s (stop rest words) w e = rw (e, scan) w
scan_last-le c s (advance s') w e = rw (e, scan) (finish-le s'.phase s' 1)
scan_last-le c s (advance_two s') w e = rw (e, scan) (finish-le s'.phase s' 1)

scan_next-le :
    (c d : ℕ) (line : Text) (s : Scan) (m : Move)
    → MoveWithin (suc (suc (length line))) m
    → step s.phase s c (d ∷ line) ≡ m
    → ((s' : Scan) → length (scan (d ∷ line) s').0 ≤ suc (length line))
    → ((s' : Scan) → length (scan line s').0 ≤ length line)
    → length (scan (c ∷ d ∷ line) s).0 ≤ suc (suc (length line))
unfolding scan
scan_next-le c d line s (stop rest words) w e h k = rw (e, scan) w
scan_next-le c d line s (advance s') w e h k = rw (e, scan) (omega (arith, h s'))
scan_next-le c d line s (advance_two s') w e h k = rw (e, scan) (omega (arith, k s'))

scan-le : (line : Text) (s : Scan) → length (scan line s).0 ≤ length line
scan-le [] s = unfold scan in finish-le s.phase s 0
scan-le (c ∷ []) s = scan_last-le c s (step s.phase s c []) (step-MoveWithin s.phase s c []) refl
scan-le (c ∷ d ∷ line) s =
    scan_next-le c d line s (step s.phase s c (d ∷ line)) (step-MoveWithin s.phase s c (d ∷ line))
      refl (scan-le (d ∷ line)) (scan-le line)

abbrev RestWithin : ℕ → Option Text → Type 0
RestWithin n none = Unit
RestWithin n (some rest) = length rest < n

RestWithin-suc : (n : ℕ) (rest : Option Text) → RestWithin n rest → RestWithin (suc n) rest
RestWithin-suc n none h = tt
RestWithin-suc n (some rest) h = omega arith

split_whitespace-RestWithin : (s : Text) → RestWithin (length s) (split_whitespace s).1
unfolding split_whitespace
split_whitespace-RestWithin [] = tt
split_whitespace-RestWithin (c ∷ s) = ground (
  arith,
  trim_left-le is_blank s,
  RestWithin-suc (length s) (split_whitespace s).1,
  split_whitespace-RestWithin s,
)

extract-le : (line : Text) → length (extract_builder_flags line).0 ≤ length line
unfolding extract_builder_flags
extract-le line = scan-le line start

with_args-lt :
    (n : ℕ) (cmd : Text) (rest : Option Text)
    → RestWithin n rest
    → ((with_args cmd rest).args ≡ []) ⊎ (length (with_args cmd rest).args < n)
with_args-lt n cmd none h = inl (unfold trim_space trim_left trim_right in refl)
with_args-lt n cmd (some line) h =
    let args = (extract_builder_flags line).0 in
    inr (omega (arith, trim_space-le args, extract-le line))

lt_of :
    {n m : ℕ} (args : Text)
    → (args ≡ []) ⊎ (length args < n)
    → n ≤ m
    → (args ≡ []) ⊎ (length args < m)
lt_of args (inl e) h = inl e
lt_of args (inr k) h = inr (omega arith)

-- Where a line has arguments at all, they are shorter than the line.
pub split_command-lt :
    (line : Text)
    → ((split_command line).args ≡ []) ⊎ (length (split_command line).args < length line)
unfolding split_command
split_command-lt line = shorter line _ (split_whitespace-RestWithin (trim_space line))
  where
    shorter :
        (line : Text) (r : Text × Option Text)
        → RestWithin (length (trim_space line)) r.1
        → ((with_args r.0 r.1).args ≡ []) ⊎ (length (with_args r.0 r.1).args < length line)
    shorter line r h =
        lt_of (with_args r.0 r.1).args (with_args-lt (length (trim_space line)) r.0 r.1 h)
          (trim_space-le line)
