-- ===== src/Edit/Laws.antt =====
-- internal/mcp/edit.go: what the edits do to a text.
pub mod Lines
pub mod Display
use cloud_agent_sandbox.Base.{
  ℕ, zero, suc, ◌+◌, ◌-◌, ◌≤◌, ◌<◌, ◌≡◌, ◌≢◌, ◌↔◌, refl, sym, ◌∙◌, ap, ◌⊎◌, inl, inr, Bool, true,
  false, ◌&&◌, Option, none, some, List, [], ◌∷◌, ◌++◌, append_assoc, append-nil, Text, bytes,
  newline, ◌==◌, nat_eq, text_eq, if◌then◌else◌, arith, length, length-append, Bool-cases,
  Option-cases,
}
use mathlib.Core.List.{append_cancel_left}
use cloud_agent_sandbox.Strings.{cut_prefix}
use cloud_agent_sandbox.Session.Model.{Result, ok, err}
use cloud_agent_sandbox.Edit.{cut, count_from, count, replace_first, replace_unique}

cut_prefix_sound : (p t r : Text) → cut_prefix p t ≡ some r → t ≡ p ++ r
unfolding cut_prefix
cut_prefix_sound [] t r h = ground arith
cut_prefix_sound (x ∷ p) [] r h = cc
cut_prefix_sound (x ∷ p) (c ∷ t) r h = ground (arith, cut_prefix_sound p t r, nat_eq.beq_iff x c)

cut_prefix_complete : (p r : Text) → cut_prefix p (p ++ r) ≡ some r
unfolding cut_prefix
cut_prefix_complete [] r = refl
cut_prefix_complete (x ∷ p) r = ground (arith, cut_prefix_complete p r, nat_eq.beq_iff x x)

-- `old` stands in `s` between `a` and `b`.
abbrev pub Splits : Text → Text → Text → Text → Type 0
Splits old s a b = s ≡ a ++ old ++ b

cut_sound : (old s a b : Text) → cut old s ≡ some (a, b) → Splits old s a b
unfolding cut
cut_sound old [] a b h = elim (Option-cases (cut_prefix old [])) [
  | inl n ↦ ground (arith, n, h)
  | inr (r, e) ↦ ground (arith, e, h, cut_prefix_sound old [] r e)
]
cut_sound old (c ∷ s) a b h = elim (Option-cases (cut_prefix old (c ∷ s))) [
  | inl n ↦ elim (Option-cases (cut old s)) [
    | inl m ↦ ground (arith, n, m, h)
    | inr (p, e) ↦ ground (arith, n, e, h, cut_sound old s p.0 p.1 e)
  ]
  | inr (r, e) ↦ ground (arith, e, h, cut_prefix_sound old (c ∷ s) r e)
]

cut_complete : (old s : Text) → cut old s ≡ none → (a b : Text) → s ≢ a ++ old ++ b
unfolding cut
cut_complete old [] h [] b q =
    let p = ap (cut_prefix old) q ∙ cut_prefix_complete old b in ground (arith, p, h)
cut_complete old [] h (x ∷ a) b q = cc
cut_complete old (c ∷ s) h [] b q =
    let p = ap (cut_prefix old) q ∙ cut_prefix_complete old b in ground (arith, p, h)
cut_complete old (c ∷ s) h (x ∷ a) b q =
    let rest : s ≡ a ++ old ++ b = cc in
    elim (Option-cases (cut_prefix old (c ∷ s))) [
      | inl n ↦ elim (Option-cases (cut old s)) [
        | inl m ↦ cut_complete old s m a b rest
        | inr (p, e) ↦ ground (arith, n, e, h)
      ]
      | inr (r, e) ↦ ground (arith, e, h)
    ]

unmatched_of_count : (f : ℕ) (old s : Text) → 0 < f → count_from f old s ≡ 0 → cut old s ≡ none
unfolding count_from
unmatched_of_count zero old s l h = absurd (omega (arith, l))
unmatched_of_count (suc f) old s l h = elim (Option-cases (cut old s)) [
  | inl m ↦ m
  | inr (p, e) ↦ absurd (ground (arith, e, h))
]

-- What a replacement makes of a text: one occurrence of the old text is replaced, and no other
-- follows behind it.
pub record IsReplacement (old new content r : Text) : Type 0 where
  pub before : Text
  pub after : Text
  pub stood : Splits old content before after
  pub result : r ≡ before ++ new ++ after
  pub only : (a b : Text) → after ≢ a ++ old ++ b

length_pos : (old : Text) → old ≢ [] → 0 < length old
length_pos [] n = absurd (n refl)
length_pos (c ∷ s) n = ground arith

length_stood : (old s a b : Text) → old ≢ [] → Splits old s a b → 0 < length s
length_stood old s a b n h =
    omega (arith, ap length h, length-append (a ++ old) b, length-append a old, length_pos old n)

-- A replacement succeeds only for an old text that is not empty; it changes one occurrence of it,
-- in place, and none follows behind that one.
pub replace_unique-IsReplacement :
    (content old new r : Text)
    → replace_unique content old new ≡ ok r
    → (old ≢ []) × IsReplacement old new content r
unfolding replace_unique count replace_first count_from
replace_unique-IsReplacement content old new r h = elim (Option-cases (cut old content)) [
  | inl n ↦ ground (arith, n, h)
  | inr (p, e) ↦
      let stood = cut_sound old content p.0 p.1 e in
      let rest : count_from (length content) old p.1 ≡ 0 = ground (arith, h, e) in
      let named : old ≢ [] = λ q. ground (arith, h, text_eq.beq_iff old []) in
      let long = length_stood old content p.0 p.1 named stood in
      (
        named,
        record {
          before = p.0;
          after = p.1;
          stood = stood;
          result = ground (arith, h, e);
          only = λ a b.
              cut_complete old p.1 (unmatched_of_count (length content) old p.1 long rest) a b;
        },
      )
]

count_unmatched : (f : ℕ) (old s : Text) → cut old s ≡ none → count_from f old s ≡ 0
unfolding count_from
count_unmatched zero old s h = refl
count_unmatched (suc f) old s h = rw (h, count_from) refl

-- A text that stands only once does not stand again behind itself.
cut_behind :
    (old s a b : Text)
    → old ≢ []
    → Splits old s a b
    → ((a' b' : Text) → Splits old s a' b' → a' ≡ a)
    → cut old b ≡ none
cut_behind old s a b n h u = elim (Option-cases (cut old b)) [
  | inl m ↦ m
  | inr (p, e) ↦
      let again : b ≡ p.0 ++ old ++ p.1 = cut_sound old b p.0 p.1 e in
      let further : s ≡ (a ++ old ++ p.0) ++ old ++ p.1 =
        h
        ∙ ap (λ t. a ++ old ++ t) again
        ∙ ap (λ t. a ++ old ++ t) (append_assoc p.0 old p.1)
        ∙ sym (append_assoc (a ++ old) p.0 (old ++ p.1))
        ∙ sym (append_assoc (a ++ old ++ p.0) old p.1) in
      absurd (
        omega (
          arith,
          ap length (u (a ++ old ++ p.0) p.1 further),
          length-append (a ++ old) p.0,
          length-append a old,
          length_pos old n,
        ))
]

-- And it does succeed on every text in which the old text stands exactly once.
pub replace_unique_once :
    (content old new a b : Text)
    → old ≢ []
    → Splits old content a b
    → ((a' b' : Text) → Splits old content a' b' → a' ≡ a)
    → replace_unique content old new ≡ ok (a ++ new ++ b)
unfolding replace_unique count replace_first count_from
replace_unique_once content old new a b n h u = elim (Option-cases (cut old content)) [
  | inl m ↦ absurd (cut_complete old content m a b h)
  | inr (p, e) ↦
      let stood = cut_sound old content p.0 p.1 e in
      let first : p.0 ≡ a = u p.0 p.1 stood in
      let last : p.1 ≡ b =
        append_cancel_left (a ++ old) p.1 b
          (ap (λ t. t ++ old ++ p.1) (sym first) ∙ sym stood ∙ h) in
      let none_behind =
        count_unmatched (length content) old p.1
          (ap (cut old) last ∙ cut_behind old content a b n h u) in
      ground (arith, e, none_behind, first, last, n, text_eq.beq_iff old [])
]
