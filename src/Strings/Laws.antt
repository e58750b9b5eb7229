-- ===== src/Strings/Laws.antt =====
-- What the tests of Go's `strings` package say of the concatenations of texts.
use cloud_agent_sandbox.Base.{
  ℕ, ◌≡◌, ◌↔◌, refl, sym, ap, ◌∙◌, inl, inr, true, some, [], ◌∷◌, ◌++◌, append-nil, Text, nat_eq,
  text_eq, arith, Bool-cases, Option-cases,
}
use cloud_agent_sandbox.Strings.{cut_prefix, has_prefix, contains}

pub cut_prefix_iff : (p t u : Text) → (cut_prefix p t ≡ some u) ↔ (t ≡ p ++ u)
unfolding cut_prefix
cut_prefix_iff [] t u = ground arith
cut_prefix_iff (p ∷ ps) [] u = ground arith
cut_prefix_iff (p ∷ ps) (c ∷ t) u = ground (arith, cut_prefix_iff ps t u, nat_eq.beq_iff p c)

pub has_prefix_iff : (p t : Text) → (has_prefix p t ≡ true) ↔ ((u : Text) × (t ≡ p ++ u))
unfolding has_prefix
has_prefix_iff p t = (
  λ h. elim (Option-cases (cut_prefix p t)) [
    | inl e ↦ cc
    | inr (u, e) ↦ (u, (cut_prefix_iff p t u).0 e)
  ],
  λ (u, q). rw ((cut_prefix_iff p t u).1 q, has_prefix) refl,
)

empty_parts : (a p b : Text) → [] ≡ a ++ (p ++ b) → p ≡ []
empty_parts [] [] b q = refl
empty_parts [] (c ∷ p) b q = cc
empty_parts (c ∷ a) p b q = cc

contains_behind :
    (c : ℕ) (t p : Text)
    → ((a b : Text) → t ≡ a ++ (p ++ b) → contains t p ≡ true)
    → (a b : Text) → c ∷ t ≡ a ++ (p ++ b)
    → contains (c ∷ t) p ≡ true
unfolding contains
contains_behind c t p below [] b q =
    let h : has_prefix p (c ∷ t) ≡ true = (has_prefix_iff p (c ∷ t)).1 (b, q) in ground arith
contains_behind c t p below (d ∷ a) b q =
    let h : contains t p ≡ true = below a b (ground arith) in ground arith

contains_parts : (t p : Text) → contains t p ≡ true → (a : Text) × (b : Text) × (t ≡ a ++ (p ++ b))
unfolding contains
contains_parts [] p h =
    let e : p ≡ [] = (text_eq.beq_iff p []).0 h in ([], [], sym e ∙ sym (append-nil p))
contains_parts (c ∷ t) p h = elim (Bool-cases (has_prefix p (c ∷ t))) [
  | inl e ↦ let w = (has_prefix_iff p (c ∷ t)).0 e in ([], w.0, w.1)
  | inr e ↦ let w = contains_parts t p (ground arith) in (c ∷ w.0, w.1, ap (λ k. c ∷ k) w.2)
]

parts_contains : (t p a b : Text) → t ≡ a ++ (p ++ b) → contains t p ≡ true
unfolding contains
parts_contains [] p a b q = (text_eq.beq_iff p []).1 (empty_parts a p b q)
parts_contains (c ∷ t) p a b q = contains_behind c t p (parts_contains t p) a b q

pub contains_iff :
    (t p : Text) → (contains t p ≡ true) ↔ ((a : Text) × (b : Text) × (t ≡ a ++ (p ++ b)))
contains_iff t p = (contains_parts t p, λ w. parts_contains t p w.0 w.1 w.2)
