-- ===== src/Session/Id/Slug.antt =====
-- internal/session/id.go: the bytes of a slug, its first byte and its length.
use cloud_agent_sandbox.Base.{
  ℕ, zero, suc, ◌*◌, ◌/◌, ◌%◌, ◌≤◌, ◌<◌, ◌≡◌, refl, ◌⊎◌, inl, inr, [], ◌∷◌, Text, ◌==◌, ◌&&◌,
  nat_eq, ltb, arith, length, length-take, take, Bool-cases,
}
use cloud_agent_sandbox.Strings.{trim_byte}
use cloud_agent_sandbox.Strings.Trim.{
  Each, trim_byte-Each, take-Each, length-trim_byte, Starts, trim_byte-Starts,
}
use cloud_agent_sandbox.Session.Id.{
  hex_digit, hex_encode, in_range, slug_byte, slugify_from, slugify, tail_width, halve_dashes,
  has_double_dash, collapse, max_slug, bound_slug, slug_of,
}

-- A letter in lower case or a digit, and the same or a dash.
abbrev pub IsPlain : ℕ → Type 0
IsPlain c = ((b'a' ≤ c) × (c ≤ b'z')) ⊎ ((b'0' ≤ c) × (c ≤ b'9'))

abbrev pub IsSlugByte : ℕ → Type 0
IsSlugByte c = IsPlain c ⊎ (c ≡ b'-')

slug_byte-IsSlugByte : (c : ℕ) → IsSlugByte (slug_byte c)
unfolding slug_byte in_range
slug_byte-IsSlugByte c = ground arith

slugify_from-Each : (n : ℕ) (t : Text) → Each IsSlugByte (slugify_from n t)
unfolding slugify_from
slugify_from-Each n [] = tt
slugify_from-Each (suc n) (c ∷ t) = slugify_from-Each n t
slugify_from-Each zero (c ∷ t) = (slug_byte-IsSlugByte c, slugify_from-Each (tail_width c t) t)

module _ (Q : ℕ → Type 0) where
  halve_dashes-Each : (t : Text) → Q b'-' → Each Q t → Each Q (halve_dashes t)
  unfolding halve_dashes
  halve_dashes-Each [] d h = h
  halve_dashes-Each (c ∷ []) d h = h
  halve_dashes-Each (c ∷ e ∷ t) d h = elim (Bool-cases (c == b'-' && e == b'-')) [
    | inl b ↦ rw b (d, halve_dashes-Each t d h.1.1)
    | inr b ↦ rw b (h.0, halve_dashes-Each (e ∷ t) d h.1)
  ]

  collapse-Each : (n : ℕ) (t : Text) → Q b'-' → Each Q t → Each Q (collapse n t)
  unfolding collapse
  collapse-Each zero t d h = h
  collapse-Each (suc n) t d h = elim (Bool-cases (has_double_dash t)) [
    | inl b ↦ rw b (collapse-Each n (halve_dashes t) d (halve_dashes-Each t d h))
    | inr b ↦ rw b h
  ]

halve_dashes-Starts : (t : Text) → Starts b'-' t → Starts b'-' (halve_dashes t)
unfolding halve_dashes
halve_dashes-Starts [] h = h
halve_dashes-Starts (c ∷ []) h = h
halve_dashes-Starts (c ∷ d ∷ t) h = elim (Bool-cases (c == b'-' && d == b'-')) [
  | inl b ↦ absurd (ground (arith, b, h, nat_eq.beq_iff c b'-'))
  | inr b ↦ rw b h
]

collapse-Starts : (n : ℕ) (t : Text) → Starts b'-' t → Starts b'-' (collapse n t)
unfolding collapse
collapse-Starts zero t h = h
collapse-Starts (suc n) t h = elim (Bool-cases (has_double_dash t)) [
  | inl b ↦ rw b (collapse-Starts n (halve_dashes t) (halve_dashes-Starts t h))
  | inr b ↦ rw b h
]

-- What a slug is: letters, digits and dashes, with no dash in front, at most forty.
pub record IsSlug (t : Text) : Type 0 where
  pub each : Each IsSlugByte t
  pub starts : Starts b'-' t
  pub short : length t ≤ max_slug

bound_slug-IsSlug : (t : Text) → Each IsSlugByte t → Starts b'-' t → IsSlug (bound_slug t)
unfolding bound_slug
bound_slug-IsSlug t h s = elim (Bool-cases (ltb max_slug (length t))) [
  | inl b ↦ rw b record {
    each = trim_byte-Each IsSlugByte b'-' (take max_slug t) (take-Each IsSlugByte max_slug t h);
    starts = trim_byte-Starts b'-' (take max_slug t);
    short = omega (arith, length-trim_byte b'-' (take max_slug t), length-take max_slug t);
  }
  | inr b ↦ rw b record { each = h; starts = s; short = ground (arith, b) }
]

pub slug_of-IsSlug : (ref : Text) → IsSlug (slug_of ref)
unfolding slug_of slugify
slug_of-IsSlug ref =
    let t = trim_byte b'-' (slugify ref) in
    bound_slug-IsSlug (collapse (length t) t)
      (collapse-Each IsSlugByte (length t) t (inr refl)
        (trim_byte-Each IsSlugByte b'-' (slugify ref) (slugify_from-Each 0 ref)))
      (collapse-Starts (length t) t (trim_byte-Starts b'-' (slugify ref)))

-- The hexadecimal digits of bytes.
hex_digit-IsPlain : (n : ℕ) → n < 16 → IsPlain (hex_digit n)
unfolding hex_digit
hex_digit-IsPlain n h = ground (arith, h)

pub hex_encode-Each : (t : Text) → Each (λ b. b < 256) t → Each IsPlain (hex_encode t)
unfolding hex_encode
hex_encode-Each [] h = tt
hex_encode-Each (b ∷ t) h = (
  hex_digit-IsPlain (b / 16) (omega (arith, h.0)),
  (hex_digit-IsPlain (b % 16) (omega arith), hex_encode-Each t h.1),
)

pub length-hex_encode : (t : Text) → length (hex_encode t) ≡ 2 * length t
unfolding hex_encode
length-hex_encode [] = refl
length-hex_encode (b ∷ t) = omega (arith, length-hex_encode t)
