-- ===== src/Edit/Laws/Display.antt =====
-- internal/mcp/edit.go: splitDisplayLines.
use cloud_agent_sandbox.Base.{
  ℕ, zero, suc, ◌+◌, ◌-◌, ◌<◌, ◌≡◌, ◌≢◌, refl, sym, ◌∙◌, ap, inl, inr, true, false, List, [], ◌∷◌,
  ◌++◌, append-nil, Text, newline, ◌==◌, nat_eq, text_eq, if◌then◌else◌, arith, length, take,
  length-take, Bool-cases,
}
use cloud_agent_sandbox.Edit.{push, split, ends_in_newline, split_display_lines}
use cloud_agent_sandbox.Edit.Laws.Lines.{newlines}

-- Lines, with a newline between each and the next.
abbrev pub join : List Text → Text
join [] = []
join (l ∷ []) = l
join (l ∷ m ∷ ls) = l ++ (newline ∷ join (m ∷ ls))

join-push : (c : ℕ) (ls : List Text) → join (push c ls) ≡ c ∷ join ls
join-push c [] = refl
join-push c (l ∷ []) = refl
join-push c (l ∷ m ∷ ls) = refl

length-push : (c : ℕ) (ls : List Text) → 0 < length ls → length (push c ls) ≡ length ls
length-push c [] h = absurd (omega (arith, h))
length-push c (l ∷ ls) h = refl

length-split : (s : Text) → length (split s) ≡ newlines s + 1
unfolding split
length-split [] = refl
length-split (c ∷ s) = elim (Bool-cases (c == newline)) [
  | inl e ↦ rw e (omega (arith, length-split s))
  | inr e ↦ rw e (length-push c (split s) (omega (arith, length-split s)) ∙ length-split s)
]

-- A list of two lines or more, seen from its first.
join-cons : (l : Text) (ls : List Text) → 0 < length ls → join (l ∷ ls) ≡ l ++ (newline ∷ join ls)
join-cons l [] h = absurd (omega (arith, h))
join-cons l (m ∷ ls) h = refl

join-split : (s : Text) → join (split s) ≡ s
unfolding split
join-split [] = refl
join-split (c ∷ s) = elim (Bool-cases (c == newline)) [
  | inl e ↦ rw e (
      join-cons [] (split s) (omega (arith, length-split s))
      ∙ ap (λ t. newline ∷ t) (join-split s)
      ∙ ap (λ d. d ∷ s) (sym ((nat_eq.beq_iff c newline).0 e)))
  | inr e ↦ rw e (join-push c (split s) ∙ ap (λ t. c ∷ t) (join-split s))
]

-- Whether a text is empty or ends in a newline shows in its last line.
newlines_pos : (s : Text) → ends_in_newline s ≡ true → 0 < newlines s
unfolding ends_in_newline
newlines_pos [] h = cc
newlines_pos (c ∷ []) h = ground (arith, h)
newlines_pos (c ∷ d ∷ s) h = ground (arith, newlines_pos (d ∷ s) h)

take-push :
    (n c : ℕ) (ls : List Text) → 0 < n → 0 < length ls → take n (push c ls) ≡ push c (take n ls)
take-push zero c ls h l = absurd (omega (arith, h))
take-push (suc n) c [] h l = absurd (omega (arith, l))
take-push (suc n) c (x ∷ ls) h l = refl

-- One byte further to the front.
join-take-cons :
    (c : ℕ) (t : Text)
    → 0 < newlines t
    → join (take (newlines t) (split t)) ++ (newline ∷ []) ≡ t
    → join (take (newlines (c ∷ t)) (split (c ∷ t))) ++ (newline ∷ []) ≡ c ∷ t
unfolding split
join-take-cons c t l h = elim (Bool-cases (c == newline)) [
  | inl e ↦
      let some_lines : 0 < length (take (newlines t) (split t)) =
        ground (arith, length-take (newlines t) (split t), length-split t, l) in
      rw (e, join-cons [] (take (newlines t) (split t)) some_lines)
        (ap (λ s. newline ∷ s) h ∙ ap (λ d. d ∷ t) (sym ((nat_eq.beq_iff c newline).0 e)))
  | inr e ↦
      rw
        (
          e,
          take-push (newlines t) c (split t) l (omega (arith, length-split t)),
          join-push c (take (newlines t) (split t)),
        )
        (ap (λ s. c ∷ s) h)
]

join-take-split :
    (s : Text) → ends_in_newline s ≡ true → join (take (newlines s) (split s)) ++ (newline ∷ []) ≡ s
unfolding ends_in_newline split
join-take-split [] h = cc
join-take-split (c ∷ []) h = rw (h, split) (ap (λ d. d ∷ []) (sym ((nat_eq.beq_iff c newline).0 h)))
join-take-split (c ∷ d ∷ s) h =
    join-take-cons c (d ∷ s) (newlines_pos (d ∷ s) h) (join-take-split (d ∷ s) h)

-- No line has a newline in it.
abbrev pub AllPlain : List Text → Type 0
AllPlain [] = Unit
AllPlain (l ∷ ls) = (newlines l ≡ 0) × AllPlain ls

push-AllPlain :
    (c : ℕ) (ls : List Text) → (c == newline) ≡ false → AllPlain ls → AllPlain (push c ls)
push-AllPlain c [] e h = (rw e refl, tt)
push-AllPlain c (l ∷ ls) e h = (rw e h.0, h.1)

split-AllPlain : (s : Text) → AllPlain (split s)
unfolding split
split-AllPlain [] = (refl, tt)
split-AllPlain (c ∷ s) = elim (Bool-cases (c == newline)) [
  | inl e ↦ rw e (refl, split-AllPlain s)
  | inr e ↦ rw e (push-AllPlain c (split s) e (split-AllPlain s))
]

take-AllPlain : (n : ℕ) (ls : List Text) → AllPlain ls → AllPlain (take n ls)
take-AllPlain zero ls h = tt
take-AllPlain (suc n) [] h = tt
take-AllPlain (suc n) (l ∷ ls) h = (h.0, take-AllPlain n ls h.1)

-- The lines of a text that is not empty have no newline in them, and with a newline between each
-- and the next, and one more at the end if the text ends in one, they are the text again.
pub join-split_display_lines :
    (s : Text)
    → s ≢ []
    → AllPlain (split_display_lines s)
      × (join (split_display_lines s) ++ (if ends_in_newline s then newline ∷ [] else []) ≡ s)
unfolding split_display_lines
join-split_display_lines s n = elim (Bool-cases (s == [])) [
  | inl e ↦ absurd (n ((text_eq.beq_iff s []).0 e))
  | inr e ↦ elim (Bool-cases (ends_in_newline s)) [
    | inl k ↦
        let upto : length (split s) - 1 ≡ newlines s = omega (arith, length-split s) in
        rw (e, k, upto)
          (take-AllPlain (newlines s) (split s) (split-AllPlain s), join-take-split s k)
    | inr k ↦ rw (e, k) (split-AllPlain s, append-nil (join (split s)) ∙ join-split s)
  ]
]
