-- ===== src/Config/Load/Laws.antt =====
-- internal/config/config.go: what Load returns.
use cloud_agent_sandbox.Base.{◌≡◌, subst, Option, Text, arith, Option-cases, inl, inr}
use cloud_agent_sandbox.Base.Int.{ℤ}
use cloud_agent_sandbox.Config.Model.{Config, default, validate}
use cloud_agent_sandbox.Config.Laws.{IsConsistent, validate-IsConsistent}
use cloud_agent_sandbox.Session.Model.{Result, ok, err}
use cloud_agent_sandbox.Config.Load.{
  Environment, ◌>>=◌, load, load_texts, load_sandbox, load_pool, load_lifetime, load_proxy,
  load_security, validated,
}

-- A chain that succeeds has a last part that does.
last_ok :
    {A B : Type 0} (m : Result A) (f : A → Result B) (b : B)
    → (m >>= f) ≡ ok b
    → (a : A) × (f a ≡ ok b)
last_ok (ok a) f b h = (a, h)
last_ok (err x) f b h = cc

module _ (parse_duration : Text → Option ℤ) where
  validated-IsConsistent : (c d : Config) → validated parse_duration c ≡ ok d → IsConsistent d
  unfolding validated
  validated-IsConsistent c d h = elim (Option-cases (validate c)) [
    | inl n ↦
        let same : c ≡ d = ground (arith, h, n) in
        subst IsConsistent same ((validate-IsConsistent c).0 n)
    | inr (x, n) ↦ absurd (ground (arith, h, n))
  ]

  -- Whatever the environment holds, and whichever durations the parser accepts, a configuration that
  -- Load returns without an error is consistent.
  pub load-IsConsistent :
      (look : Environment) (c : Config) → load parse_duration look ≡ ok c → IsConsistent c
  unfolding load
  load-IsConsistent look c h =
      let (c1, h1) = last_ok (load_sandbox look (load_texts look default)) _ c h in
      let (c2, h2) = last_ok (load_pool look c1) _ c h1 in
      let (c3, h3) = last_ok (load_lifetime parse_duration look c2) _ c h2 in
      let (c4, h4) = last_ok (load_proxy parse_duration look c3) _ c h3 in
      let (c5, h5) = last_ok (load_security parse_duration look c4) _ c h4 in
      validated-IsConsistent c5 c h5
