-- ===== src/Session/Id.antt =====
-- internal/session/id.go: the random ids and the canonical ids of session references.
-- The SHA-256 function and the UUID are parameters.
pub mod Slug
pub mod Laws
use cloud_agent_sandbox.Base.{
  ℕ, zero, suc, ◌+◌, ◌-◌, ◌/◌, ◌%◌, Bool, false, ◌&&◌, ◌||◌, [], ◌∷◌, ◌++◌, Text, bytes, ◌==◌,
  nat_eq, text_eq, leb, ltb, length, take, drop, if◌then◌else◌,
}
use cloud_agent_sandbox.Strings.{trim_byte}

-- NewID, at the text of the fresh UUID.
unfoldable pub new_id : Text → Text
new_id uuid = bytes "sbx-" ++ take 8 uuid

hex_digit : ℕ → ℕ
hex_digit n = if ltb n 10 then b'0' + n else b'a' + (n - 10)

-- hex.EncodeToString
unfoldable pub hex_encode : Text → Text
unfolding hex_digit
hex_encode [] = []
hex_encode (b ∷ t) = hex_digit (b / 16) ∷ hex_digit (b % 16) ∷ hex_encode t

in_range : ℕ → ℕ → ℕ → Bool
in_range lo hi c = leb lo c && leb c hi

-- A byte of a character behind the first.
is_continuation : Text → Bool
unfolding in_range
is_continuation [] = false
is_continuation (c ∷ t) = in_range 0x80 0xbf c

-- How many bytes behind its first byte `c` the first character of `c ∷ t` takes. Go reads a
-- malformed character as one byte.
tail_width : ℕ → Text → ℕ
unfolding in_range is_continuation
tail_width c [] = 0
tail_width c (d ∷ t) =
    let three = if is_continuation t then 2 else 0 in
    let four = if is_continuation t && is_continuation (drop 1 t) then 3 else 0 in
    if in_range 0xc2 0xdf c
    then (if in_range 0x80 0xbf d then 1 else 0)
    else if c == 0xe0 && in_range 0xa0 0xbf d
        || (in_range 0xe1 0xec c || in_range 0xee 0xef c) && in_range 0x80 0xbf d
        || c == 0xed && in_range 0x80 0x9f d
    then three
    else if c == 0xf0 && in_range 0x90 0xbf d
        || in_range 0xf1 0xf3 c && in_range 0x80 0xbf d
        || c == 0xf4 && in_range 0x80 0x8f d
    then four
    else 0

-- The mapping of one character, by its first byte: all characters of several bytes become '-'.
slug_byte : ℕ → ℕ
unfolding in_range
slug_byte c =
    if in_range b'a' b'z' c || in_range b'0' b'9' c
    then c
    else if in_range b'A' b'Z' c
    then c + (b'a' - b'A')
    else b'-'

-- strings.Map over the characters; `skip` counts the bytes that belong to one already mapped.
slugify_from : ℕ → Text → Text
unfolding slug_byte tail_width
slugify_from skip [] = []
slugify_from (suc skip) (c ∷ t) = slugify_from skip t
slugify_from zero (c ∷ t) = slug_byte c ∷ slugify_from (tail_width c t) t

unfoldable pub slugify : Text → Text
unfolding slugify_from
slugify = slugify_from 0

-- strings.ReplaceAll(slug, "--", "-")
unfoldable pub halve_dashes : Text → Text
halve_dashes [] = []
halve_dashes (c ∷ []) = c ∷ []
halve_dashes (c ∷ d ∷ t) =
    let pair = b'-' ∷ halve_dashes t in
    let other = c ∷ halve_dashes (d ∷ t) in if c == b'-' && d == b'-' then pair else other

-- strings.Contains(slug, "--")
unfoldable pub has_double_dash : Text → Bool
has_double_dash [] = false
has_double_dash (c ∷ []) = false
has_double_dash (c ∷ d ∷ t) = c == b'-' && d == b'-' || has_double_dash (d ∷ t)

-- `for strings.Contains(slug, "--") { ... }`; each round shortens the slug.
unfoldable pub collapse : ℕ → Text → Text
unfolding halve_dashes has_double_dash
collapse zero t = t
collapse (suc n) t = let rest = collapse n (halve_dashes t) in if has_double_dash t then rest else t

abbrev pub max_slug : ℕ
max_slug = 40

-- `if len(slug) > maxSlug { ... }`
bound_slug : Text → Text
bound_slug t = if ltb max_slug (length t) then trim_byte b'-' (take max_slug t) else t

-- The slug of a reference, before the suffix.
unfoldable pub slug_of : Text → Text
unfolding slugify collapse bound_slug
slug_of raw =
    let trimmed = trim_byte b'-' (slugify raw) in bound_slug (collapse (length trimmed) trimmed)

with_suffix : Text → Text → Text
with_suffix slug suffix = if slug == [] then bytes "sbx-" ++ suffix else slug ++ bytes "-" ++ suffix

-- CanonicalID
unfoldable pub canonical_id : (Text → Text) → Text → Text
unfolding hex_encode slug_of with_suffix
canonical_id sha256 raw = with_suffix (slug_of raw) (take 10 (hex_encode (sha256 raw)))
