-- ===== src/Exec/Buffers/Laws.antt =====
-- internal/exec/kubeexec.go: what the buffers keep of a stream of writes.
use cloud_agent_sandbox.Base.{
  ℕ, zero, suc, ◌+◌, ◌-◌, ◌≤◌, ◌≡◌, refl, sym, ap, subst, ◌∙◌, ◌||◌, List, [], ◌∷◌, ◌++◌,
  append-nil, append_assoc, Text, ltb, leb, length, length-append, length-take, length-drop, take,
  drop, take_all, drop_all, take-append, drop-append, drop-drop, drop-nil, arith, Bool-cases, inl,
  inr,
}
use cloud_agent_sandbox.Exec.Buffers.{
  CapBuffer, new_cap_buffer, cap_write, TailBuffer, new_tail_buffer, tail_write,
}

-- All that a stream has brought.
abbrev pub total : List Text → Text
total [] = []
total (p ∷ ps) = p ++ total ps

abbrev pub cap_writes : List Text → CapBuffer → CapBuffer
cap_writes [] b = b
cap_writes (p ∷ ps) b = cap_writes ps (cap_write p b)

abbrev pub tail_writes : List Text → TailBuffer → TailBuffer
tail_writes [] b = b
tail_writes (p ∷ ps) b = tail_writes ps (tail_write p b)

-- The last bytes of a text.
abbrev pub last : ℕ → Text → Text
last n s = drop (length s - n) s

take-nil : (n : ℕ) → take {A = ℕ} n [] ≡ []
take-nil zero = refl
take-nil (suc n) = refl

-- The buffer after the stream `s`.
record IsCapped (s : Text) (b : CapBuffer) : Type 0 where
  kept : b.buf ≡ take b.limit s
  flagged : b.truncated ≡ ltb b.limit (length s)

-- One write keeps what fits.
cap_write_buf :
    (p : Text) (b : CapBuffer) → (cap_write p b).buf ≡ b.buf ++ take (b.limit - length b.buf) p
unfolding cap_write
cap_write_buf p b = elim (Bool-cases (leb b.limit 0)) [
  | inl l ↦
      let full : b.limit - length b.buf ≡ 0 = ground (arith, l) in
      rw (l, full) (sym (append-nil b.buf))
  | inr l ↦ elim (Bool-cases (ltb 0 (b.limit - length b.buf))) [
    | inl r ↦ elim (Bool-cases (leb (length p) (b.limit - length b.buf))) [
      | inl f ↦
          rw (l, r, f)
            (ap (λ q. b.buf ++ q) (sym (take_all (b.limit - length b.buf) p (ground (arith, f)))))
      | inr f ↦ rw (l, r, f) refl
    ]
    | inr r ↦
        let full : b.limit - length b.buf ≡ 0 = ground (arith, r) in
        ground (arith, l, full, append-nil b.buf)
  ]
]

cap_write_rest :
    (p : Text) (b : CapBuffer)
    → ((cap_write p b).limit ≡ b.limit)
      × ((cap_write p b).truncated ≡ (b.truncated || ltb (b.limit - length b.buf) (length p)))
unfolding cap_write
cap_write_rest p b = ground arith

cap_write-IsCapped : (p s : Text) (b : CapBuffer) → IsCapped s b → IsCapped (s ++ p) (cap_write p b)
cap_write-IsCapped p s b h =
    let (same, flag) = cap_write_rest p b in
    let held : b.limit - length b.buf ≡ b.limit - length s =
      omega (arith, ap length h.kept, length-take b.limit s) in
    record {
      kept =
          cap_write_buf p b
          ∙ ap (λ k. b.buf ++ take k p) held
          ∙ ap (λ u. u ++ take (b.limit - length s) p) h.kept
          ∙ sym (take-append b.limit s p)
          ∙ ap (λ k. take k (s ++ p)) (sym same);
      flagged = rw (flag, same, held, h.flagged) (ground (arith, length-append s p));
    }

cap_writes-IsCapped :
    (ps : List Text) (s : Text) (b : CapBuffer)
    → IsCapped s b
    → IsCapped (s ++ total ps) (cap_writes ps b)
cap_writes-IsCapped [] s b h = rw (append-nil s) h
cap_writes-IsCapped (p ∷ ps) s b h =
    subst (λ t. IsCapped t (cap_writes ps (cap_write p b))) (append_assoc s p (total ps))
      (cap_writes-IsCapped ps (s ++ p) (cap_write p b) (cap_write-IsCapped p s b h))

cap_writes_limit : (ps : List Text) (b : CapBuffer) → (cap_writes ps b).limit ≡ b.limit
cap_writes_limit [] b = refl
cap_writes_limit (p ∷ ps) b = cap_writes_limit ps (cap_write p b) ∙ (cap_write_rest p b).0

-- However a stream is cut into writes, a capped buffer keeps its first bytes up to the limit, and
-- says that it is truncated exactly if there were more.
pub cap_writes-take :
    (n : ℕ) (ps : List Text)
    → ((cap_writes ps (new_cap_buffer n)).buf ≡ take n (total ps))
      × ((cap_writes ps (new_cap_buffer n)).truncated ≡ ltb n (length (total ps)))
unfolding new_cap_buffer
cap_writes-take n ps =
    let b = new_cap_buffer n in
    let end =
      cap_writes-IsCapped ps [] b record { kept = sym (take-nil n); flagged = ground arith } in
    let same = cap_writes_limit ps b in
    (
      end.kept ∙ ap (λ k. take k (total ps)) same,
      end.flagged ∙ ap (λ k. ltb k (length (total ps))) same,
    )

-- The buffer after the stream `s`.
record IsTail (s : Text) (b : TailBuffer) : Type 0 where
  kept : b.buf ≡ last b.limit s
  flagged : b.truncated ≡ ltb b.limit (length s)

no_bytes : (s : Text) → length s ≤ 0 → s ≡ []
no_bytes [] h = refl
no_bytes (c ∷ s) h = absurd (omega (arith, h))

tail_write_buf :
    (p : Text) (b : TailBuffer)
    → length b.buf ≤ b.limit
    → (tail_write p b).buf ≡ drop (length (b.buf ++ p) - b.limit) (b.buf ++ p)
unfolding tail_write
tail_write_buf p b h = elim (Bool-cases (leb b.limit 0)) [
  | inl l ↦ rw l (
      no_bytes b.buf (ground (arith, l, h))
      ∙ sym (drop_all (length (b.buf ++ p) - b.limit) (b.buf ++ p) (ground (arith, l))))
  | inr l ↦ elim (Bool-cases (ltb b.limit (length (b.buf ++ p)))) [
    | inl f ↦ rw (l, f) refl
    | inr f ↦
        let fits : 0 ≡ length (b.buf ++ p) - b.limit = ground (arith, f) in
        rw (l, f) (ap (λ k. drop k (b.buf ++ p)) fits)
  ]
]

tail_write_rest :
    (p : Text) (b : TailBuffer)
    → length b.buf ≤ b.limit
    → ((tail_write p b).limit ≡ b.limit)
      × ((tail_write p b).truncated ≡ (b.truncated || ltb b.limit (length b.buf + length p)))
unfolding tail_write
tail_write_rest p b h = ground (arith, length-append b.buf p)

tail_write-IsTail : (p s : Text) (b : TailBuffer) → IsTail s b → IsTail (s ++ p) (tail_write p b)
tail_write-IsTail p s b h =
    let held : length b.buf ≡ length s - (length s - b.limit) =
      ap length h.kept ∙ length-drop (length s - b.limit) s in
    let small : length b.buf ≤ b.limit = omega (arith, held) in
    let (same, flag) = tail_write_rest p b small in
    let gone = length s - b.limit in
    let at_end : 0 ≡ gone - length s = omega arith in
    let joined : b.buf ++ p ≡ drop gone (s ++ p) =
      ap (λ u. u ++ p) h.kept
      ∙ ap (λ k. drop gone s ++ drop k p) at_end
      ∙ sym (drop-append gone s p) in
    record {
      kept =
          tail_write_buf p b small
          ∙ ap (λ u. drop (length (b.buf ++ p) - b.limit) u) joined
          ∙ drop-drop (length (b.buf ++ p) - b.limit) gone (s ++ p)
          ∙ ap (λ k. drop k (s ++ p))
              (omega (arith, length-append b.buf p, length-append s p, held, same));
      flagged = rw (flag, same, h.flagged) (ground (arith, length-append s p, held));
    }

tail_writes-IsTail :
    (ps : List Text) (s : Text) (b : TailBuffer)
    → IsTail s b
    → IsTail (s ++ total ps) (tail_writes ps b)
tail_writes-IsTail [] s b h = rw (append-nil s) h
tail_writes-IsTail (p ∷ ps) s b h =
    subst (λ t. IsTail t (tail_writes ps (tail_write p b))) (append_assoc s p (total ps))
      (tail_writes-IsTail ps (s ++ p) (tail_write p b) (tail_write-IsTail p s b h))

tail_write_limit : (p : Text) (b : TailBuffer) → (tail_write p b).limit ≡ b.limit
unfolding tail_write
tail_write_limit p b = ground arith

tail_writes_limit : (ps : List Text) (b : TailBuffer) → (tail_writes ps b).limit ≡ b.limit
tail_writes_limit [] b = refl
tail_writes_limit (p ∷ ps) b = tail_writes_limit ps (tail_write p b) ∙ tail_write_limit p b

-- However a stream is cut into writes, a tail buffer keeps its last bytes up to the limit, and says
-- that it is truncated exactly if there were more.
tail_writes-last :
    (n : ℕ) (ps : List Text)
    → ((tail_writes ps (new_tail_buffer n)).buf ≡ last n (total ps))
      × ((tail_writes ps (new_tail_buffer n)).truncated ≡ ltb n (length (total ps)))
unfolding new_tail_buffer
tail_writes-last n ps =
    let b = new_tail_buffer n in
    let end =
      tail_writes-IsTail ps [] b record { kept = sym (drop-nil (0 - n)); flagged = ground arith } in
    let same = tail_writes_limit ps b in
    (
      end.kept ∙ ap (λ k. last k (total ps)) same,
      end.flagged ∙ ap (λ k. ltb k (length (total ps))) same,
    )

-- However a stream is cut into writes, a capped buffer keeps its first bytes and a tail buffer its
-- last, each up to its limit, and each says that it is truncated exactly if the stream is longer.
pub cap_writes-tail_writes :
    (n : ℕ) (ps : List Text)
    → ((cap_writes ps (new_cap_buffer n)).buf ≡ take n (total ps))
      × ((cap_writes ps (new_cap_buffer n)).truncated ≡ ltb n (length (total ps)))
      × ((tail_writes ps (new_tail_buffer n)).buf ≡ last n (total ps))
      × ((tail_writes ps (new_tail_buffer n)).truncated ≡ ltb n (length (total ps)))
cap_writes-tail_writes n ps =
    let (kept, flagged) = cap_writes-take n ps in
    let (ending, over) = tail_writes-last n ps in (kept, flagged, ending, over)
