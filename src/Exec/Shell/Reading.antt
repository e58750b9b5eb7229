-- ===== src/Exec/Shell/Reading.antt =====
-- How a POSIX shell splits a line into words, for lines of words, single quotes, backslashes, blanks
-- and `&&`. A line with any other byte of the shell's syntax outside quotes is refused, so that what
-- is read is read literally: no expansion, no redirection, no further command.
use cloud_agent_sandbox.Base.{
  ℕ, Bool, ◌&&◌, ◌||◌, Option, none, some, List, [], ◌∷◌, ◌++◌, Text, ◌==◌, nat_eq, leb,
  if◌then◌else◌,
}

pub data Token : Type 0 where
  word : Text → Token
  and_if : Token

-- Where the reader stands, with the word so far.
pub data Mode : Type 0 where
  blank : Mode
  bare : Text → Mode
  quoted : Text → Mode
  escaped : Text → Mode
  ampersand : Mode

-- A byte that stands for itself outside quotes.
unfoldable pub is_plain : ℕ → Bool
is_plain c =
    leb b'a' c && leb c b'z'
    || leb b'A' c && leb c b'Z'
    || leb b'0' c && leb c b'9'
    || c == b'/'
    || c == b'-'
    || c == b'_'
    || c == b'.'

-- One byte: the tokens that it ends, and where the reader stands then.
unfoldable pub next : Mode → ℕ → Option (List Token × Mode)
next blank c =
    if c == b' '
    then some ([], blank)
    else if c == b'\''
    then some ([], quoted [])
    else if c == b'\\'
    then some ([], escaped [])
    else if c == b'&'
    then some ([], ampersand)
    else if is_plain c
    then some ([], bare (c ∷ []))
    else none
next (bare w) c =
    if c == b' '
    then some (word w ∷ [], blank)
    else if c == b'\''
    then some ([], quoted w)
    else if c == b'\\'
    then some ([], escaped w)
    else if is_plain c
    then some ([], bare (w ++ (c ∷ [])))
    else none
next (quoted w) c = if c == b'\'' then some ([], bare w) else some ([], quoted (w ++ (c ∷ [])))
next (escaped w) c = if c == b'\n' then none else some ([], bare (w ++ (c ∷ [])))
next ampersand c = if c == b'&' then some (and_if ∷ [], blank) else none

abbrev pub prepend : List Token → Option (List Token) → Option (List Token)
prepend ts none = none
prepend ts (some us) = some (ts ++ us)

-- A line from where the reader stands; a quote or an escape must be closed.
unfoldable pub read : Mode → Text → Option (List Token)
read blank [] = some []
read (bare w) [] = some (word w ∷ [])
read (quoted w) [] = none
read (escaped w) [] = none
read ampersand [] = none
read m (c ∷ s) = elim (next m c) [ none ↦ none | some p ↦ prepend p.0 (read p.1 s) ]
