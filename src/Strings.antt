-- ===== src/Strings.antt =====
-- The functions of Go's `strings` package that the program calls, over lists of bytes.
pub mod Laws
pub mod Trim
use cloud_agent_sandbox.Base.{
  ℕ, zero, suc, ◌+◌, Bool, true, false, ◌&&◌, ◌||◌, Option, none, some, List, [], ◌∷◌, Text, ◌==◌,
  nat_eq, text_eq, list_beq, leb, length, bytes, if◌then◌else◌, ◌≡◌, refl,
}
use mathlib.Core.List.{reverse}

-- strings.CutPrefix
unfoldable pub cut_prefix : Text → Text → Option Text
cut_prefix [] t = some t
cut_prefix (p ∷ ps) [] = none
cut_prefix (p ∷ ps) (c ∷ t) = if p == c then cut_prefix ps t else none

-- strings.TrimLeft and strings.Trim at a cutset of one ASCII byte.
unfoldable pub trim_left_byte : ℕ → Text → Text
trim_left_byte b [] = []
trim_left_byte b (c ∷ t) = if c == b then trim_left_byte b t else c ∷ t

unfoldable pub trim_byte : ℕ → Text → Text
unfolding trim_left_byte
trim_byte b t = reverse (trim_left_byte b (reverse (trim_left_byte b t)))

is_ascii_space : ℕ → Bool
is_ascii_space c = leb 9 c && leb c 13 || c == 32

-- U+0085 and U+00A0.
is_space_of_two : ℕ → ℕ → Bool
is_space_of_two c d = c == 0xc2 && (d == 0x85 || d == 0xa0)

-- U+1680, U+2000 to U+200A, U+2028, U+2029, U+202F, U+205F and U+3000.
is_space_of_three : ℕ → ℕ → ℕ → Bool
is_space_of_three c d e =
    c == 0xe1 && d == 0x9a && e == 0x80
    || c == 0xe2
      && (d == 0x80 && (leb 0x80 e && leb e 0x8a || e == 0xa8 || e == 0xa9 || e == 0xaf)
          || d == 0x81 && e == 0x9f)
    || c == 0xe3 && d == 0x80 && e == 0x80

-- The text behind a white-space character at its head.
strip_head : Text → Option Text
unfolding is_ascii_space is_space_of_two is_space_of_three
strip_head [] = none
strip_head (c ∷ []) = if is_ascii_space c then some [] else none
strip_head (c ∷ d ∷ []) =
    if is_ascii_space c then some (d ∷ []) else if is_space_of_two c d then some [] else none
strip_head (c ∷ d ∷ e ∷ t) =
    if is_ascii_space c
    then some (d ∷ e ∷ t)
    else if is_space_of_two c d
    then some (e ∷ t)
    else if is_space_of_three c d e
    then some t
    else none

-- The same over a reversed text.
strip_last : Text → Option Text
unfolding is_ascii_space is_space_of_two is_space_of_three
strip_last [] = none
strip_last (c ∷ []) = if is_ascii_space c then some [] else none
strip_last (c ∷ d ∷ []) =
    if is_ascii_space c then some (d ∷ []) else if is_space_of_two d c then some [] else none
strip_last (c ∷ d ∷ e ∷ t) =
    if is_ascii_space c
    then some (d ∷ e ∷ t)
    else if is_space_of_two d c
    then some (e ∷ t)
    else if is_space_of_three e d c
    then some t
    else none

-- Strips while it can; each round takes a byte at least, so that the length is fuel enough.
strip_all : (Text → Option Text) → ℕ → Text → Text
strip_all strip zero t = t
strip_all strip (suc n) t = elim (strip t) [ none ↦ t | some u ↦ strip_all strip n u ]

-- strings.TrimSpace
unfoldable pub trim_space : Text → Text
unfolding strip_head strip_last strip_all
trim_space t =
    let u = strip_all strip_head (length t) t in
    reverse (strip_all strip_last (length u) (reverse u))

trim_space_test : trim_space (bytes "  default\n") ≡ bytes "default"
unfolding trim_space
trim_space_test = refl

-- The words of strings.Fields, from `n` on with the read part of the current word in reverse.
fields_from : ℕ → Text → Text → List Text
unfolding strip_head
fields_from zero w t = []
fields_from (suc n) w [] = if w == [] then [] else reverse w ∷ []
fields_from (suc n) w (c ∷ t) = elim (strip_head (c ∷ t)) [
  | none ↦ fields_from n (c ∷ w) t
  | some u ↦ if w == [] then fields_from n [] u else reverse w ∷ fields_from n [] u
]

-- strings.Fields; each round takes a byte at least, and the last one none.
unfoldable pub fields : Text → List Text
unfolding fields_from
fields t = fields_from (1 + length t) [] t

fields_test : fields (bytes " a  bc\n") ≡ bytes "a" ∷ bytes "bc" ∷ []
unfolding fields list_beq
fields_test = refl

-- strings.HasPrefix and strings.Contains
unfoldable pub has_prefix : Text → Text → Bool
unfolding cut_prefix
has_prefix p t = elim (cut_prefix p t) [ none ↦ false | some u ↦ true ]

unfoldable pub contains : Text → Text → Bool
unfolding has_prefix
contains [] p = p == []
contains (c ∷ t) p = has_prefix p (c ∷ t) || contains t p

-- strings.ToLower at an ASCII text, which the names of Kubernetes objects are.
unfoldable pub to_lower : Text → Text
to_lower [] = []
to_lower (c ∷ t) = (if leb b'A' c && leb c b'Z' then c + 32 else c) ∷ to_lower t

-- strings.TrimPrefix
unfoldable pub trim_prefix : Text → Text → Text
unfolding cut_prefix
trim_prefix p t = elim (cut_prefix p t) [ none ↦ t | some u ↦ u ]
