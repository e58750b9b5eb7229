-- ===== src/Edit.antt =====
-- internal/mcp/edit.go: the edits of a file's text behind the file tools. A text is its list of
-- bytes.
pub mod Laws
use cloud_agent_sandbox.Base.{
  ℕ, zero, suc, ◌+◌, ◌-◌, ◌/◌, ◌%◌, Bool, true, false, ◌&&◌, ◌||◌, Option, none, some, List, [],
  ◌∷◌, ◌++◌, Text, bytes, newline, ◌==◌, nat_eq, text_eq, ltb, leb, length, take, drop,
  if◌then◌else◌,
}
use cloud_agent_sandbox.Base.Int.{ℤ, pos, negsuc, leb_ℤ, ltb_ℤ, pos_part}
use cloud_agent_sandbox.Strings.{cut_prefix}
use cloud_agent_sandbox.Session.Model.{Error, message, Result, ok, err}

abbrev pub push : ℕ → List Text → List Text
push c [] = (c ∷ []) ∷ []
push c (l ∷ ls) = (c ∷ l) ∷ ls

-- strings.Split(content, "\n")
unfoldable pub split : Text → List Text
split [] = [] ∷ []
split (c ∷ s) = if c == newline then [] ∷ split s else push c (split s)

-- strings.HasSuffix(content, "\n")
unfoldable pub ends_in_newline : Text → Bool
ends_in_newline [] = false
ends_in_newline (c ∷ []) = c == newline
ends_in_newline (c ∷ d ∷ s) = ends_in_newline (d ∷ s)

-- splitDisplayLines
unfoldable pub split_display_lines : Text → List Text
split_display_lines content =
    if content == []
    then []
    else let lines = split content in
      if ends_in_newline content then take (length lines - 1) lines else lines

-- The verb %d of a number that is not negative, on fuel: a number is larger than its count of
-- digits.
decimal_from : ℕ → ℕ → Text
decimal_from zero n = []
decimal_from (suc f) n =
    let rest = decimal_from f (n / 10) in
    if ltb n 10 then (48 + n) ∷ [] else rest ++ ((48 + n % 10) ∷ [])

unfoldable pub decimal : ℕ → Text
unfolding decimal_from
decimal n = decimal_from (suc n) n

-- The loop of renderNumberedLines, over the lines from `startLine` to `endLine`; `i` is the number
-- of the first of them.
unfoldable pub render_from : ℕ → List Text → Text
render_from i [] = []
render_from i (l ∷ []) = decimal i ++ bytes ": " ++ l
render_from i (l ∷ m ∷ ls) =
    decimal i ++ bytes ": " ++ l ++ (newline ∷ render_from (i + 1) (m ∷ ls))

-- `if startLine < 1 { startLine = 1 }`
unfoldable pub first_line : ℤ → ℕ
first_line start = if ltb_ℤ start (pos 1) then 1 else pos_part start

-- `if endLine <= 0 || endLine > len(lines) { endLine = len(lines) }`
unfoldable pub last_line : ℤ → ℕ → ℕ
last_line end n = if leb_ℤ end (pos 0) || ltb_ℤ (pos n) end then n else pos_part end

-- renderNumberedLines
unfoldable pub render_numbered_lines : Text → ℤ → ℤ → Text
render_numbered_lines content start end =
    let lines = split_display_lines content in
    let a = first_line start in
    let b = last_line end (length lines) in
    if ltb b a || ltb (length lines) a
    then []
    else render_from a (take (b + 1 - a) (drop (a - 1) lines))

-- strings.Index with the text split at the first match: what is before it, and what is behind it.
unfoldable pub cut : Text → Text → Option (Text × Text)
cut old [] = elim (cut_prefix old []) [ some r ↦ some ([], r) | none ↦ none ]
cut old (c ∷ s) = elim (cut_prefix old (c ∷ s)) [
  | some r ↦ some ([], r)
  | none ↦ elim (cut old s) [ some p ↦ some (c ∷ p.0, p.1) | none ↦ none ]
]

-- strings.Count of a text that is not empty, on fuel: each match shortens what is left.
unfoldable pub count_from : ℕ → Text → Text → ℕ
count_from zero old s = 0
count_from (suc f) old s = elim (cut old s) [ none ↦ 0 | some p ↦ suc (count_from f old p.1) ]

unfoldable pub count : Text → Text → ℕ
count s old = count_from (suc (length s)) old s

-- strings.Replace(content, oldStr, newStr, 1)
unfoldable pub replace_first : Text → Text → Text → Text
replace_first content old new = elim (cut old content) [
  | none ↦ content
  | some p ↦ p.0 ++ new ++ p.1
]

-- replaceUnique
unfoldable pub replace_unique : Text → Text → Text → Result Text
replace_unique content old new =
    if old == []
    then err (message (bytes "old_str must not be empty"))
    else let matches = count content old in
      if matches == 0
      then err (message (bytes "old_str not found"))
      else if matches == 1
      then ok (replace_first content old new)
      else err (message (bytes "old_str is not unique ("))

-- How the loop of insertAfterLine ends: it returns a text, or it has seen that many newlines.
pub data Scan : Type 0 where
  inserted : Text → Scan
  seen : ℕ → Scan

abbrev pub behind : ℕ → Scan → Scan
behind c (inserted t) = inserted (c ∷ t)
behind c (seen n) = seen n

-- The loop, at the rest of the content, with `n` newlines seen so far.
unfoldable pub scan : ℕ → Text → ℕ → Text → Scan
scan line text n [] = seen n
scan line text n (c ∷ s) =
    let m = if c == newline then n + 1 else n in
    let rest = behind c (scan line text m s) in
    if c == newline && m == line then inserted (c ∷ text ++ s) else rest

-- What follows the loop.
unfoldable pub append_last : Text → ℕ → Text → Scan → Result Text
append_last content line text (inserted t) = ok t
append_last content line text (seen n) =
    if content == []
    then err (message (bytes "line "))
    else if line == n + 1
    then ok (content ++ text)
    else err (message (bytes "line "))

-- insertAfterLine
unfoldable pub insert_after_line : Text → ℤ → Text → Result Text
insert_after_line content (negsuc n) text = err (message (bytes "line must be >= 0"))
insert_after_line content (pos zero) text = ok (text ++ content)
insert_after_line content (pos (suc n)) text =
    append_last content (suc n) text (scan (suc n) text 0 content)
