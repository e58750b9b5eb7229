-- ===== src/Edit/Laws/Lines.antt =====
-- internal/mcp/edit.go: insertAfterLine.
use cloud_agent_sandbox.Base.{
  ℕ, zero, suc, ◌+◌, ◌≤◌, ◌<◌, ◌≡◌, ◌≢◌, refl, sym, ◌∙◌, ap, ◌⊎◌, inl, inr, true, [], ◌∷◌, ◌++◌,
  append-nil, Text, bytes, newline, ◌==◌, nat_eq, text_eq, list_beq, subst, if◌then◌else◌, arith,
  Bool-cases,
}
use cloud_agent_sandbox.Base.Int.{ℤ, pos, negsuc}
use cloud_agent_sandbox.Session.Model.{Error, message, ok, err}
use cloud_agent_sandbox.Edit.{
  ends_in_newline, Scan, inserted, seen, behind, scan, append_last, insert_after_line,
}

-- How many newlines a text has.
abbrev pub newlines : Text → ℕ
newlines [] = 0
newlines (c ∷ s) = if c == newline then suc (newlines s) else newlines s

-- How an insertion changes a text: the new text stands behind as many newlines as the line says, at
-- the start of a line, or at the very end of a last line that has no newline.
pub record IsInsertion (line : ℕ) (content text r : Text) : Type 0 where
  pub before : Text
  pub after : Text
  pub was : content ≡ before ++ after
  pub is : r ≡ before ++ text ++ after
  pub at :
      ((newlines before ≡ line) × ((before ≡ []) ⊎ (ends_in_newline before ≡ true)))
      ⊎ ((after ≡ []) × (newlines before + 1 ≡ line))

-- How the loop ends.
record IsFound (line n : ℕ) (text s : Text) (r : Scan) : Type 0 where
  before : Text
  after : Text
  was : s ≡ before ++ after
  is : r ≡ inserted (before ++ text ++ after)
  count : n + newlines before ≡ line
  ends : ends_in_newline before ≡ true

ends-cons : (c : ℕ) (s : Text) → ends_in_newline s ≡ true → ends_in_newline (c ∷ s) ≡ true
unfolding ends_in_newline
ends-cons c [] h = cc
ends-cons c (d ∷ s) h = h

-- The same, one byte further to the front.
behind-IsFound :
    (line n m c : ℕ) (text s : Text) (r : Scan)
    → m ≡ (if c == newline then n + 1 else n)
    → IsFound line m text s r
    → IsFound line n text (c ∷ s) (behind c r)
behind-IsFound line n m c text s r e f = record {
  before = c ∷ f.before;
  after = f.after;
  was = ap (λ t. c ∷ t) f.was;
  is = ap (behind c) f.is;
  count = ground (arith, f.count, e);
  ends = ends-cons c f.before f.ends;
}

scan-IsFound :
    (line n : ℕ) (text s : Text)
    → n < line
    → line ≤ n + newlines s
    → IsFound line n text s (scan line text n s)
unfolding scan ends_in_newline
scan-IsFound line n text [] l h = absurd (omega (arith, l, h))
scan-IsFound line n text (c ∷ s) l h = elim (Bool-cases (c == newline)) [
  | inl e ↦ elim (Bool-cases (n + 1 == line)) [
    | inl k ↦
        rw (e, k)
          record {
            before = c ∷ [];
            after = s;
            was = refl;
            is = refl;
            count = ground (arith, e, k);
            ends = e;
          }
    | inr k ↦
        rw (e, k)
          (behind-IsFound line n (n + 1) c text s _ (rw e refl)
            (scan-IsFound line (n + 1) text s (ground (arith, k, l)) (ground (arith, e, h))))
  ]
  | inr e ↦ rw e (
      behind-IsFound line n n c text s _ (rw e refl)
        (scan-IsFound line n text s l (ground (arith, e, h))))
]

scan_seen :
    (line n : ℕ) (text s : Text)
    → n + newlines s < line
    → scan line text n s ≡ seen (n + newlines s)
unfolding scan
scan_seen line n text [] h = ap seen (omega arith)
scan_seen line n text (c ∷ s) h = elim (Bool-cases (c == newline)) [
  | inl e ↦ ground (arith, e, scan_seen line (n + 1) text s)
  | inr e ↦ ground (arith, e, scan_seen line n text s)
]

-- The lines behind which there is a place to insert: 0 for the front, each line that ends in a
-- newline, and what stands behind the last newline, unless the text is empty.
abbrev pub Reaches : ℕ → Text → Type 0
Reaches line content = (line ≤ newlines content) ⊎ ((line ≡ newlines content + 1) × (content ≢ []))

insert_after_line-IsInsertion :
    (line : ℕ) (content text : Text)
    → Reaches line content
    → (r : Text) × (insert_after_line content (pos line) text ≡ ok r)
      × IsInsertion line content text r
unfolding insert_after_line append_last
insert_after_line-IsInsertion zero content text h = (
  text ++ content,
  refl,
  record { before = []; after = content; was = refl; is = refl; at = inl (refl, inl refl) },
)
insert_after_line-IsInsertion (suc n) content text (inl h) =
    let f = scan-IsFound (suc n) 0 text content (omega arith) (omega (arith, h)) in
    (
      f.before ++ text ++ f.after,
      ap (append_last content (suc n) text) f.is,
      record {
        before = f.before;
        after = f.after;
        was = f.was;
        is = refl;
        at = inl (omega (arith, f.count), inr f.ends);
      },
    )
insert_after_line-IsInsertion (suc n) content text (inr (h, e)) = (
  content ++ text,
  ap (append_last content (suc n) text) (scan_seen (suc n) 0 text content (omega (arith, h)))
      ∙ ground (arith, h, e, text_eq.beq_iff content []),
  record {
    before = content;
    after = [];
    was = sym (append-nil content);
    is = sym (append-nil (content ++ text));
    at = inr (refl, sym h);
  },
)

insert_after_line_fails :
    (line : ℕ) (content text : Text)
    → newlines content + 1 < line
    → (x : Error) × (insert_after_line content (pos line) text ≡ err x)
unfolding insert_after_line append_last
insert_after_line_fails zero content text h = absurd (omega (arith, h))
insert_after_line_fails (suc n) content text h = (
  message (bytes "line "),
  ap (append_last content (suc n) text) (scan_seen (suc n) 0 text content (omega (arith, h)))
      ∙ ground (arith, h),
)

unreached :
    (line : ℕ) (content : Text)
    → (line ≤ newlines content) ⊎ ((line ≡ newlines content + 1) ⊎ (newlines content + 1 < line))
unreached line content = ground arith

insert_behind_nothing : (text : Text) → (x : Error) × (insert_after_line [] (pos 1) text ≡ err x)
unfolding insert_after_line append_last scan list_beq
insert_behind_nothing text = (message (bytes "line "), refl)

-- The two ways in which an insertion behind a line from 0 on ends.
abbrev EndingAt : ℕ → Text → Text → Type 0
EndingAt line content text =
    (Reaches line content
      × ((r : Text) × (insert_after_line content (pos line) text ≡ ok r)
          × IsInsertion line content text r))
    ⊎ ((¬ Reaches line content)
        × ((x : Error) × (insert_after_line content (pos line) text ≡ err x)))

last_line-EndingAt :
    (line : ℕ) (content text : Text) → line ≡ newlines content + 1 → EndingAt line content text
last_line-EndingAt line [] text h = inr (
  ground (arith, h),
  subst (λ n. (x : Error) × (insert_after_line [] (pos n) text ≡ err x)) (sym h)
      (insert_behind_nothing text),
)
last_line-EndingAt line (c ∷ s) text h =
    let at : Reaches line (c ∷ s) = inr (h, λ q. cc) in
    inl (at, insert_after_line-IsInsertion line (c ∷ s) text at)

insert_after_line-EndingAt : (line : ℕ) (content text : Text) → EndingAt line content text
insert_after_line-EndingAt line content text = elim (unreached line content) [
  | inl h ↦ inl (inl h, insert_after_line-IsInsertion line content text (inl h))
  | inr (inl h) ↦ last_line-EndingAt line content text h
  | inr (inr h) ↦ inr (ground (arith, h), insert_after_line_fails line content text h)
]

-- A line, which is any integer, that the text reaches: the number of newlines in front of the place.
abbrev pub Place : ℤ → Text → Type 0
Place line content = (n : ℕ) × (line ≡ pos n) × Reaches n content

-- The two ways in which an insertion ends.
abbrev pub Ending : ℤ → Text → Text → Type 0
Ending line content text =
    ((p : Place line content) × ((r : Text) × (insert_after_line content line text ≡ ok r)
        × IsInsertion p.0 content text r))
    ⊎ ((¬ Place line content) × ((x : Error) × (insert_after_line content line text ≡ err x)))

-- An insertion behind a line that the text reaches succeeds: it changes nothing else, and puts the
-- new text behind exactly that many newlines, or at the end. Behind any other line, a negative one
-- included, it fails.
pub insert_after_line-Ending : (line : ℤ) (content text : Text) → Ending line content text
unfolding insert_after_line
insert_after_line-Ending (negsuc n) content text =
    inr (λ (m, e, q). cc, (message (bytes "line must be >= 0"), refl))
insert_after_line-Ending (pos n) content text = elim (insert_after_line-EndingAt n content text) [
  | inl (q, w) ↦ inl ((n, refl, q), w)
  | inr (q, w) ↦
      inr (λ (m, e, k). let same : m ≡ n = cc in q (subst (λ i. Reaches i content) same k), w)
]
