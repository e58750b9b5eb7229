-- ===== src/Session/Id/Laws.antt =====
-- internal/session/id.go: canonical ids.
use cloud_agent_sandbox.Base.{
  ℕ, ◌+◌, ◌≤◌, ◌<◌, ◌≡◌, ◌≢◌, refl, sym, ap, ◌∙◌, inl, inr, [], ◌∷◌, ◌++◌, append_assoc, Text,
  bytes, arith, text_eq, length, length-append, length-take, take, list_beq,
}
use cloud_agent_sandbox.Strings.Trim.{Each, take-Each, append-Each}
use cloud_agent_sandbox.Session.Id.{hex_encode, slug_of, with_suffix, canonical_id}
use cloud_agent_sandbox.Session.Id.Slug.{
  IsPlain, IsSlugByte, IsSlug, slug_of-IsSlug, hex_encode-Each, length-hex_encode,
}

with_suffix_nonempty : (slug suffix : Text) → with_suffix slug suffix ≢ []
unfolding with_suffix
with_suffix_nonempty [] suffix q = ground (arith, q)
with_suffix_nonempty (c ∷ slug) suffix q = ground (arith, q)

-- A canonical id is never empty.
pub canonical_id_nonempty : (sha256 : Text → Text) (ref : Text) → canonical_id sha256 ref ≢ []
unfolding canonical_id
canonical_id_nonempty sha256 ref = with_suffix_nonempty _ _

-- A label of DNS (RFC 1123) of at most `n` bytes: letters in lower case, digits and dashes, with no
-- dash at the two ends.
pub record IsLabel (n : ℕ) (t : Text) : Type 0 where
  pub each : Each IsSlugByte t
  pub first : ℕ
  pub rest : Text
  pub begins : t ≡ first ∷ rest
  pub first_plain : IsPlain first
  pub front : Text
  pub last : ℕ
  pub finishes : t ≡ front ++ (last ∷ [])
  pub last_plain : IsPlain last
  pub short : length t ≤ n

widen : (t : Text) → Each IsPlain t → Each IsSlugByte t
widen [] h = tt
widen (c ∷ t) h = (inl h.0, widen t h.1)

-- The last byte of a text that has one.
last_of :
    (c : ℕ) (t : Text)
    → Each IsPlain (c ∷ t)
    → (u : Text) × (d : ℕ) × (c ∷ t ≡ u ++ (d ∷ [])) × IsPlain d
last_of c [] h = ([], c, refl, h.0)
last_of c (d ∷ t) h = let (u, x, e, p) = last_of d t h.1 in (c ∷ u, x, ap (λ s. c ∷ s) e, p)

-- A label in front of plain bytes.
prefixed-IsLabel :
    (n c : ℕ) (p s : Text)
    → IsPlain c
    → Each IsSlugByte p
    → Each IsPlain s
    → 0 < length s
    → length p + length s < n
    → IsLabel n (c ∷ p ++ s)
prefixed-IsLabel n c p [] f h k l m = absurd (omega (arith, l))
prefixed-IsLabel n c p (d ∷ s) f h k l m =
    let (u, x, e, q) = last_of d s k in
    record {
      each = (inl f, append-Each IsSlugByte p (d ∷ s) h (widen (d ∷ s) k));
      first = c;
      rest = p ++ (d ∷ s);
      begins = refl;
      first_plain = f;
      front = c ∷ p ++ u;
      last = x;
      finishes = ap (λ t. c ∷ p ++ t) e ∙ sym (append_assoc (c ∷ p) u (x ∷ []));
      last_plain = q;
      short = omega (arith, length-append p (d ∷ s), m);
    }

with_suffix-IsLabel :
    (slug suffix : Text)
    → IsSlug slug
    → Each IsPlain suffix
    → length suffix ≡ 10
    → IsLabel 51 (with_suffix slug suffix)
unfolding with_suffix list_beq
with_suffix-IsLabel [] suffix h k l =
    prefixed-IsLabel 51 b's' (bytes "bx-") suffix (ground arith) (ground arith) k (omega (arith, l))
      (omega (arith, l))
with_suffix-IsLabel (c ∷ t) suffix h k l =
    prefixed-IsLabel 51 c (t ++ bytes "-") suffix (ground (arith, h.each.0, h.starts))
      (append-Each IsSlugByte t (bytes "-") h.each.1 (inr refl, tt)) k (omega (arith, l))
      (omega (arith, l, h.short, length-append t (bytes "-")))

-- A label stays one behind a word that begins with a letter or a digit.
pub append-IsLabel :
    (n m c : ℕ) (p t : Text)
    → IsPlain c
    → Each IsSlugByte p
    → length p + n < m
    → IsLabel n t
    → IsLabel m (c ∷ p ++ t)
append-IsLabel n m c p t f h l i = record {
  each = (inl f, append-Each IsSlugByte p t h i.each);
  first = c;
  rest = p ++ t;
  begins = refl;
  first_plain = f;
  front = c ∷ p ++ i.front;
  last = i.last;
  finishes = ap (λ s. c ∷ p ++ s) i.finishes ∙ sym (append_assoc (c ∷ p) i.front (i.last ∷ []));
  last_plain = i.last_plain;
  short = omega (arith, length-append p t, i.short, l);
}

module _ (sha256 : Text → Text) (size : (t : Text) → length (sha256 t) ≡ 32) where
  suffix_length : (ref : Text) → length (take 10 (hex_encode (sha256 ref))) ≡ 10
  suffix_length ref =
      omega
        (arith, length-take 10 (hex_encode (sha256 ref)), length-hex_encode (sha256 ref), size ref)

  -- A canonical id is a label of at most 51 bytes.
  pub canonical_id-IsLabel :
      (ref : Text) → Each (λ b. b < 256) (sha256 ref) → IsLabel 51 (canonical_id sha256 ref)
  unfolding canonical_id
  canonical_id-IsLabel ref h =
      with_suffix-IsLabel (slug_of ref) _ (slug_of-IsSlug ref)
        (take-Each IsPlain 10 (hex_encode (sha256 ref)) (hex_encode-Each (sha256 ref) h))
        (suffix_length ref)

  with_suffix_apart : (slug suffix : Text) → (u : Text) × (with_suffix slug suffix ≡ u ++ suffix)
  unfolding with_suffix list_beq
  with_suffix_apart [] suffix = (bytes "sbx-", refl)
  with_suffix_apart (c ∷ t) suffix = ((c ∷ t) ++ bytes "-", refl)

  same_tail : (u v s t : Text) → length s ≡ length t → u ++ s ≡ v ++ t → s ≡ t
  same_tail [] [] s t l e = e
  same_tail [] (d ∷ v) s t l e = absurd (omega (arith, ap length e, length-append v t, l))
  same_tail (c ∷ u) [] s t l e = absurd (omega (arith, ap length e, length-append u s, l))
  same_tail (c ∷ u) (d ∷ v) s t l e = same_tail u v s t l cc

  -- Two references share a canonical id only if their hashes agree in the ten hexadecimal digits in
  -- front.
  pub canonical_id_collides :
      (a b : Text)
      → canonical_id sha256 a ≡ canonical_id sha256 b
      → take 10 (hex_encode (sha256 a)) ≡ take 10 (hex_encode (sha256 b))
  unfolding canonical_id
  canonical_id_collides a b e =
      let (u, p) = with_suffix_apart (slug_of a) (take 10 (hex_encode (sha256 a))) in
      let (v, q) = with_suffix_apart (slug_of b) (take 10 (hex_encode (sha256 b))) in
      same_tail u v _ _ (suffix_length a ∙ sym (suffix_length b)) (sym p ∙ e ∙ q)
