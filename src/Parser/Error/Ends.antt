-- ===== src/Parser/Error/Ends.antt =====
-- Results that come about in the program itself: a value with a property, or one of its errors.
use dockerfile.Base.{ℕ, Bool, true, false, if◌then◌else◌, ◌≡◌, refl, subst}
use dockerfile.Parser.Error.{
  Error, located, out_of_fuel, with_location, Result, ok, err, ◌>>=◌, at_lines,
}

-- An error of the source, not of the model
abbrev pub IsReal : Error → Type 0
IsReal out_of_fuel = ⊥
IsReal (located _ _ e) = IsReal e
IsReal _ = Unit

abbrev pub Ends {ℓ} : {A : Type ℓ} → (A → Type 0) → Result A → Type 0
Ends Q (err e) = IsReal e
Ends Q (ok x) = Q x

pub Ends-bind {ℓ κ} :
    {A : Type ℓ} {B : Type κ} (Before : A → Type 0) (After : B → Type 0) (m : Result A)
    (next : A → Result B)
    → Ends Before m
    → ((x : A) → Before x → Ends After (next x))
    → Ends After (m >>= next)
Ends-bind Before After (err e) next real step = real
Ends-bind Before After (ok x) next before step = step x before

pub with_location-IsReal :
    (e : Error) (start end : ℕ) → IsReal e → IsReal (with_location e start end)
unfolding with_location
with_location-IsReal (located s t e) start end h = h
with_location-IsReal _ start end h = h

pub Ends-at_lines {ℓ} :
    {A : Type ℓ} (P : A → Type 0) (start end : ℕ) (r : Result A)
    → Ends P r
    → Ends P (at_lines start end r)
Ends-at_lines P start end (ok a) h = h
Ends-at_lines P start end (err e) h = with_location-IsReal e start end h

-- The value has a property, if there is a value.
abbrev pub Holds {ℓ} : {A : Type ℓ} → (A → Type 0) → Result A → Type 0
Holds P (err e) = Unit
Holds P (ok x) = P x

pub Holds-bind {ℓ κ} :
    {A : Type ℓ} {B : Type κ} (Before : A → Type 0) (After : B → Type 0) (m : Result A)
    (next : A → Result B)
    → Holds Before m
    → ((x : A) → Before x → Holds After (next x))
    → Holds After (m >>= next)
Holds-bind Before After (err e) next h step = tt
Holds-bind Before After (ok x) next h step = step x h

pub Holds-if {ℓ} :
    {A : Type ℓ} (P : A → Type 0) (b : Bool) (r s : Result A)
    → Holds P r
    → Holds P s
    → Holds P (if b then r else s)
Holds-if P true r s h k = h
Holds-if P false r s h k = k

pub Holds-if_known {ℓ} :
    {A : Type ℓ} (P : A → Type 0) (b : Bool) (r s : Result A)
    → (b ≡ true → Holds P r)
    → (b ≡ false → Holds P s)
    → Holds P (if b then r else s)
Holds-if_known P true r s h k = h refl
Holds-if_known P false r s h k = k refl

pub Holds-ok {ℓ} : {A : Type ℓ} (P : A → Type 0) (r : Result A) {x : A} → Holds P r → r ≡ ok x → P x
Holds-ok P (err e) h k = cc
Holds-ok P (ok y) h k = subst P (cc) h

pub Holds-map {ℓ} :
    {A : Type ℓ} {P : A → Type 0} (Q : A → Type 0) (r : Result A)
    → Holds P r
    → ((x : A) → P x → Q x)
    → Holds Q r
Holds-map Q (err e) h k = tt
Holds-map Q (ok x) h k = k x h
