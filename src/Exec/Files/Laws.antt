-- ===== src/Exec/Files/Laws.antt =====
-- internal/exec/kubeexec.go: what ReadFile gives back.
use cloud_agent_sandbox.Base.{
  ℕ, ◌≤◌, ◌≡◌, ◌↔◌, refl, ◌∙◌, inl, inr, List, [], ◌∷◌, Text, length, ltb, take, take_all, arith,
  Bool-cases,
}
use cloud_agent_sandbox.Session.Model.{ok}
use cloud_agent_sandbox.Exec.Model.{file_read_limit}
use cloud_agent_sandbox.Exec.Buffers.{CapBuffer, new_cap_buffer}
use cloud_agent_sandbox.Exec.Buffers.Laws.{total, cap_writes, cap_writes-take}
use cloud_agent_sandbox.Exec.Remote.{Streamed, End, finished, exited, broken, capped, capped_from}
use cloud_agent_sandbox.Exec.Files.{whole, file_at, file_of}

capped_from-cap_writes : (ps : List Text) (b : CapBuffer) → capped_from ps b ≡ cap_writes ps b
unfolding capped_from
capped_from-cap_writes [] b = refl
capped_from-cap_writes (p ∷ ps) b = capped_from-cap_writes ps _

capped-take :
    (n : ℕ) (ps : List Text)
    → ((capped n ps).buf ≡ take n (total ps))
      × ((capped n ps).truncated ≡ ltb n (length (total ps)))
unfolding capped
capped-take n ps = rw (capped_from-cap_writes ps (new_cap_buffer n)) (cap_writes-take n ps)

whole_iff :
    (n : ℕ) (out : List Text) (t : Text)
    → (whole (capped n out) ≡ ok t) ↔ ((t ≡ total out) × (length (total out) ≤ n))
unfolding whole
whole_iff n out t =
    let kept = capped-take n out in
    elim (Bool-cases (ltb n (length (total out)))) [
      | inl l ↦ rw (kept.1 ∙ l) (λ h. cc, λ (e, m). absurd (ground (arith, l, m)))
      | inr l ↦
          let small : length (total out) ≤ n = ground (arith, l) in
          let all = kept.0 ∙ take_all n (total out) small in
          rw (kept.1 ∙ l, all) (λ h. let e : t ≡ total out = cc in (e, small), λ (e, m). cc)
    ]

file_at_iff :
    (end : End) (out : List Text) (t : Text)
    → (file_at end out ≡ ok t)
      ↔ ((end ≡ finished) × (t ≡ total out) × (length (total out) ≤ file_read_limit))
unfolding file_at
file_at_iff finished out t =
    let w = whole_iff file_read_limit out t in
    (λ h. let k = w.0 h in (refl, k.0, k.1), λ (f, e, l). w.1 (e, l))
file_at_iff (exited n) out t = (λ h. cc, λ (f, e, l). cc)
file_at_iff (broken x) out t = (λ h. cc, λ (f, e, l). cc)

-- ReadFile gives back the whole file, however its stream is cut into writes, and exactly if the
-- stream ends without an error and the file is within the limit; a larger file is an error, never a
-- part.
pub file_of-total :
    (s : Streamed) (t : Text)
    → (file_of s ≡ ok t)
      ↔ ((s.end ≡ finished) × (t ≡ total s.out) × (length (total s.out) ≤ file_read_limit))
unfolding file_of
file_of-total s t = file_at_iff s.end s.out t
