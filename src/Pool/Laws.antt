-- ===== src/Pool/Laws.antt =====
-- internal/pool/pool.go: the warm pool under any interleaving of its atomic steps.
use cloud_agent_sandbox.Base.{
  ◌+◌, ◌≤◌, ◌<◌, ◌≡◌, sym, ◌∙◌, ap, Option, none, some, List, [], ◌∷◌, ◌++◌, length, length-append,
  append-nil, append_assoc, arith,
}
use cloud_agent_sandbox.Base.Int.{pos_part}
use cloud_agent_sandbox.Config.Model.{Config}
use cloud_agent_sandbox.Runtime.Model.{SandboxHandle}
use cloud_agent_sandbox.Pool.{
  Warm, take_idle, target_idle, reserve_warming_slot, put_idle, finish_warming,
}

-- The atomic steps, as the goroutines that serve requests and the one that replenishes take them.
pub data Event : Type 0 where
  takes : Event
  reserves : Event
  finishes : Option SandboxHandle → Event

unfoldable pub step : Config → Event → Warm → Warm
step cfg takes p = (take_idle p).0
step cfg reserves p = (reserve_warming_slot cfg p).0
step cfg (finishes h) p = finish_warming cfg h p

unfoldable pub run : Config → List Event → Warm → Warm
run cfg [] p = p
run cfg (x ∷ xs) p = run cfg xs (step cfg x p)

abbrev pub to_list : {A : Type 0} → Option A → List A
to_list none = []
to_list (some a) = a ∷ []

-- The handles that the takers get, in order.
unfoldable pub taken : Config → List Event → Warm → List SandboxHandle
taken cfg [] p = []
taken cfg (takes ∷ xs) p = to_list (take_idle p).1 ++ taken cfg xs (step cfg takes p)
taken cfg (reserves ∷ xs) p = taken cfg xs (step cfg reserves p)
taken cfg (finishes h ∷ xs) p = taken cfg xs (step cfg (finishes h) p)

-- The handles that have been warmed, in order.
abbrev pub warmed : List Event → List SandboxHandle
warmed [] = []
warmed (takes ∷ xs) = warmed xs
warmed (reserves ∷ xs) = warmed xs
warmed (finishes h ∷ xs) = to_list h ++ warmed xs

-- A sandbox finishes warming only under a slot that is reserved.
unfoldable pub IsPaired : Config → List Event → Warm → Type 0
IsPaired cfg [] p = Unit
IsPaired cfg (takes ∷ xs) p = IsPaired cfg xs (step cfg takes p)
IsPaired cfg (reserves ∷ xs) p = IsPaired cfg xs (step cfg reserves p)
IsPaired cfg (finishes h ∷ xs) p = (0 < p.warming) × IsPaired cfg xs (step cfg (finishes h) p)

-- The pool is never over its target.
abbrev pub IsBounded : Config → Warm → Type 0
IsBounded cfg p = length p.idle + p.warming ≤ pos_part (target_idle cfg)

reserve-IsBounded :
    (cfg : Config) (p : Warm) → IsBounded cfg p → IsBounded cfg (reserve_warming_slot cfg p).0
unfolding reserve_warming_slot
reserve-IsBounded cfg p h = ground arith

take-IsBounded : (cfg : Config) (p : Warm) → IsBounded cfg p → IsBounded cfg (take_idle p).0
unfolding take_idle
take-IsBounded cfg p h = ground arith

finish-IsBounded :
    (cfg : Config) (h : Option SandboxHandle) (p : Warm)
    → 0 < p.warming
    → IsBounded cfg p
    → IsBounded cfg (finish_warming cfg h p)
unfolding finish_warming put_idle
finish-IsBounded cfg none p l b = ground arith
finish-IsBounded cfg (some h) p l b = ground (arith, length-append p.idle (h ∷ []))

-- A handle that is warmed under a reserved slot is kept: the second check never drops it.
finish_keeps :
    (cfg : Config) (h : Option SandboxHandle) (p : Warm)
    → 0 < p.warming
    → IsBounded cfg p
    → (finish_warming cfg h p).idle ≡ p.idle ++ to_list h
unfolding finish_warming put_idle
finish_keeps cfg none p l b = ground (arith, append-nil p.idle)
finish_keeps cfg (some h) p l b = ground arith

-- From a pool within its target, and if a sandbox finishes warming only under a slot that is
-- reserved: under any interleaving of takers with the replenisher, the pool and the sandboxes
-- that are on their way never exceed the target.
pub run-IsBounded :
    (cfg : Config) (xs : List Event) (p : Warm)
    → IsBounded cfg p
    → IsPaired cfg xs p
    → IsBounded cfg (run cfg xs p)
unfolding run IsPaired step
run-IsBounded cfg [] p b i = b
run-IsBounded cfg (takes ∷ xs) p b i = run-IsBounded cfg xs _ (take-IsBounded cfg p b) i
run-IsBounded cfg (reserves ∷ xs) p b i = run-IsBounded cfg xs _ (reserve-IsBounded cfg p b) i
run-IsBounded cfg (finishes h ∷ xs) p b i =
    run-IsBounded cfg xs _ (finish-IsBounded cfg h p i.0 b) i.1

take_splits : (p : Warm) → to_list (take_idle p).1 ++ (take_idle p).0.idle ≡ p.idle
unfolding take_idle
take_splits p = ground arith

reserve_idle : (cfg : Config) (p : Warm) → (reserve_warming_slot cfg p).0.idle ≡ p.idle
unfolding reserve_warming_slot
reserve_idle cfg p = ground arith

-- From a pool within its target, and if a sandbox finishes warming only under a slot that is
-- reserved, no sandbox is lost, handed out twice or handed out of turn: under any interleaving,
-- the handles that the takers get, followed by those still idle, are those idle at the start
-- followed by those warmed since, in order.
pub taken-warmed :
    (cfg : Config) (xs : List Event) (p : Warm)
    → IsBounded cfg p
    → IsPaired cfg xs p
    → taken cfg xs p ++ (run cfg xs p).idle ≡ p.idle ++ warmed xs
unfolding run IsPaired step taken
taken-warmed cfg [] p b i = sym (append-nil p.idle)
taken-warmed cfg (takes ∷ xs) p b i =
    append_assoc (to_list (take_idle p).1) (taken cfg xs (take_idle p).0) _
    ∙ ap (λ r. to_list (take_idle p).1 ++ r)
        (taken-warmed cfg xs (take_idle p).0 (take-IsBounded cfg p b) i)
    ∙ sym (append_assoc (to_list (take_idle p).1) (take_idle p).0.idle (warmed xs))
    ∙ ap (λ r. r ++ warmed xs) (take_splits p)
taken-warmed cfg (reserves ∷ xs) p b i =
    taken-warmed cfg xs (reserve_warming_slot cfg p).0 (reserve-IsBounded cfg p b) i
    ∙ ap (λ r. r ++ warmed xs) (reserve_idle cfg p)
taken-warmed cfg (finishes h ∷ xs) p b i =
    taken-warmed cfg xs (finish_warming cfg h p) (finish-IsBounded cfg h p i.0 b) i.1
    ∙ ap (λ r. r ++ warmed xs) (finish_keeps cfg h p i.0 b)
    ∙ append_assoc p.idle (to_list h) (warmed xs)
