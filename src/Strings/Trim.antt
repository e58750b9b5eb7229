-- ===== src/Strings/Trim.antt =====
-- What strings.Trim at one byte leaves of a text, whatever property its bytes have.
use cloud_agent_sandbox.Base.{
  ℕ, zero, suc, ◌+◌, ◌≤◌, ◌≡◌, ◌≢◌, refl, sym, ◌∙◌, ap, subst, inl, inr, [], ◌∷◌, ◌++◌, Text, ◌==◌,
  nat_eq, arith, length, take, Bool-cases,
}
use mathlib.Core.List.{reverse_aux, reverse, reverse-cons, reverse-append}
use cloud_agent_sandbox.Strings.{trim_left_byte, trim_byte}

-- Every byte of a text has a property.
abbrev pub Each : (ℕ → Type 0) → Text → Type 0
Each Q [] = Unit
Each Q (c ∷ t) = Q c × Each Q t

module _ (Q : ℕ → Type 0) where
  reverse_aux-Each : (t r : Text) → Each Q t → Each Q r → Each Q (reverse_aux t r)
  reverse_aux-Each [] r h k = k
  reverse_aux-Each (c ∷ t) r h k = reverse_aux-Each t (c ∷ r) h.1 (h.0, k)

  trim_left_byte-Each : (b : ℕ) (t : Text) → Each Q t → Each Q (trim_left_byte b t)
  unfolding trim_left_byte
  trim_left_byte-Each b [] h = h
  trim_left_byte-Each b (c ∷ t) h = elim (Bool-cases (c == b)) [
    | inl e ↦ rw e (trim_left_byte-Each b t h.1)
    | inr e ↦ rw e h
  ]

  pub trim_byte-Each : (b : ℕ) (t : Text) → Each Q t → Each Q (trim_byte b t)
  unfolding trim_byte
  trim_byte-Each b t h =
      reverse_aux-Each (trim_left_byte b (reverse (trim_left_byte b t))) []
        (trim_left_byte-Each b (reverse (trim_left_byte b t))
          (reverse_aux-Each (trim_left_byte b t) [] (trim_left_byte-Each b t h) tt))
        tt

  pub take-Each : (n : ℕ) (t : Text) → Each Q t → Each Q (take n t)
  take-Each zero t h = tt
  take-Each (suc n) [] h = tt
  take-Each (suc n) (c ∷ t) h = (h.0, take-Each n t h.1)

  pub append-Each : (s t : Text) → Each Q s → Each Q t → Each Q (s ++ t)
  append-Each [] t h k = k
  append-Each (c ∷ s) t h k = (h.0, append-Each s t h.1 k)

length-reverse_aux : (t r : Text) → length (reverse_aux t r) ≡ length t + length r
length-reverse_aux [] r = omega arith
length-reverse_aux (c ∷ t) r = omega (arith, length-reverse_aux t (c ∷ r))

length-trim_left_byte : (b : ℕ) (t : Text) → length (trim_left_byte b t) ≤ length t
unfolding trim_left_byte
length-trim_left_byte b [] = omega arith
length-trim_left_byte b (c ∷ t) = ground (arith, length-trim_left_byte b t)

pub length-trim_byte : (b : ℕ) (t : Text) → length (trim_byte b t) ≤ length t
unfolding trim_byte
length-trim_byte b t =
    let u = trim_left_byte b t in
    let v = trim_left_byte b (reverse u) in
    omega (
      arith,
      length-trim_left_byte b t,
      length-reverse_aux u [],
      length-trim_left_byte b (reverse u),
      length-reverse_aux v [],
    )

-- A text that is empty or begins with another byte.
abbrev pub Starts : ℕ → Text → Type 0
Starts b [] = Unit
Starts b (c ∷ t) = c ≢ b

trim_left_byte-Starts : (b : ℕ) (t : Text) → Starts b (trim_left_byte b t)
unfolding trim_left_byte
trim_left_byte-Starts b [] = tt
trim_left_byte-Starts b (c ∷ t) = elim (Bool-cases (c == b)) [
  | inl e ↦ rw e (trim_left_byte-Starts b t)
  | inr e ↦ rw e (ground (arith, e, nat_eq.beq_iff c b))
]

-- A last byte that is another one stays.
trim_left_byte-append :
    (b c : ℕ) (t : Text) → c ≢ b → (u : Text) × (trim_left_byte b (t ++ (c ∷ [])) ≡ u ++ (c ∷ []))
unfolding trim_left_byte
trim_left_byte-append b c [] n = ([], ground (arith, n, nat_eq.beq_iff c b))
trim_left_byte-append b c (d ∷ t) n = elim (Bool-cases (d == b)) [
  | inl e ↦ rw e (trim_left_byte-append b c t n)
  | inr e ↦ rw e (d ∷ t, refl)
]

back-Starts : (b : ℕ) (t : Text) → Starts b t → Starts b (reverse (trim_left_byte b (reverse t)))
unfolding trim_left_byte
back-Starts b [] h = tt
back-Starts b (c ∷ t) h =
    let (u, e) = trim_left_byte-append b c (reverse t) h in
    let split : reverse (trim_left_byte b (reverse (c ∷ t))) ≡ c ∷ reverse u =
      ap (λ s. reverse (trim_left_byte b s)) (reverse-cons c t)
      ∙ ap (λ s. reverse s) e
      ∙ reverse-append u (c ∷ []) in
    subst (Starts b) (sym split) h

pub trim_byte-Starts : (b : ℕ) (t : Text) → Starts b (trim_byte b t)
unfolding trim_byte
trim_byte-Starts b t = back-Starts b (trim_left_byte b t) (trim_left_byte-Starts b t)
