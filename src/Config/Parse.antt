-- ===== src/Config/Parse.antt =====
-- The parsers of the standard library that internal/config/config.go calls: strconv.ParseBool and
-- strconv.Atoi. (strconv is described in its documentation; time.ParseDuration is a parameter of
-- the loading.)
use cloud_agent_sandbox.Base.{
  ℕ, ◌+◌, ◌-◌, ◌*◌, Bool, true, false, ◌&&◌, ◌||◌, Option, none, some, List, [], ◌∷◌, Text, bytes,
  ◌==◌, nat_eq, text_eq, leb, if◌then◌else◌, ◌≡◌, refl,
}
use cloud_agent_sandbox.Base.Int.{ℤ, pos, sub_ℕ}

any_of : Text → List Text → Bool
any_of t [] = false
any_of t (u ∷ us) = t == u || any_of t us

-- strconv.ParseBool
unfoldable pub parse_bool : Text → Option Bool
unfolding any_of
parse_bool t =
    if any_of t
      (bytes "1" ∷ bytes "t" ∷ bytes "T" ∷ bytes "TRUE" ∷ bytes "true" ∷ bytes "True" ∷ [])
    then some true
    else if any_of t
        (bytes "0" ∷ bytes "f" ∷ bytes "F" ∷ bytes "FALSE" ∷ bytes "false" ∷ bytes "False" ∷ [])
    then some false
    else none

is_digit : ℕ → Bool
is_digit c = leb b'0' c && leb c b'9'

-- The value of a run of digits after `acc`; `none` at the first other byte.
unfoldable pub parse_digits : ℕ → Text → Option ℕ
unfolding is_digit
parse_digits acc [] = some acc
parse_digits acc (c ∷ t) =
    let rest = parse_digits (10 * acc + (c - b'0')) t in if is_digit c then rest else none

abbrev max_int : ℕ
max_int = 9223372036854775807

positive : Text → Option ℤ
positive [] = none
positive (c ∷ t) = elim (parse_digits 0 (c ∷ t)) [
  | none ↦ none
  | some n ↦ if leb n max_int then some (pos n) else none
]

negative : Text → Option ℤ
negative [] = none
negative (c ∷ t) = elim (parse_digits 0 (c ∷ t)) [
  | none ↦ none
  | some n ↦ if leb n (max_int + 1) then some (sub_ℕ 0 n) else none
]

-- strconv.Atoi: an optional sign, then at least one digit, in the range of a 64-bit int.
unfoldable pub atoi : Text → Option ℤ
unfolding positive negative
atoi [] = none
atoi (c ∷ t) = if c == b'-' then negative t else if c == b'+' then positive t else positive (c ∷ t)

-- What strconv.ParseUint reads: a number, a byte that is no digit, or 2 ^ 64 and more.
pub data Digits : Type 0 where
  number : ℕ → Digits
  malformed : Digits
  too_large : Digits

parse_uint : ℕ → Text → Digits
unfolding is_digit
parse_uint acc [] = number acc
parse_uint acc (c ∷ t) =
    let n = 10 * acc + (c - b'0') in
    let rest = parse_uint n t in
    if is_digit c then (if leb 18446744073709551616 n then too_large else rest) else malformed

at_most : ℕ → ℕ → ℕ
at_most bound n = if leb n bound then n else bound

magnitude : ℕ → Text → ℕ
unfolding parse_uint at_most
magnitude bound [] = 0
magnitude bound (c ∷ t) = elim (parse_uint 0 (c ∷ t)) [
  | number n ↦ at_most bound n
  | malformed ↦ 0
  | too_large ↦ bound
]

-- The value of strconv.ParseInt at base 10 and 64 bits, its error dropped: 0 where the text is no
-- number, and the nearest number of 64 bits where it is out of range.
unfoldable pub parse_int : Text → ℤ
unfolding magnitude
parse_int [] = pos 0
parse_int (c ∷ t) =
    if c == b'-'
    then sub_ℕ 0 (magnitude (max_int + 1) t)
    else if c == b'+'
    then pos (magnitude max_int t)
    else pos (magnitude max_int (c ∷ t))

parse_int_test : parse_int (bytes "4096") ≡ pos 4096
unfolding parse_int
parse_int_test = refl
