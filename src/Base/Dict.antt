-- ===== src/Base/Dict.antt =====
-- Go's map[string]V as an association list. A `range` over the map is a walk in the list's order;
-- the theorems speak of look-ups and members, which do not depend on that order.
use Prim.Native.Nat.{ℕ, suc, ◌+◌, ◌≤◌}
use mathlib.Core.Path.{◌≡◌, refl}
use mathlib.Core.Logic.{◌≢◌}
use mathlib.Core.Bool.{Bool}
use mathlib.Core.Option.{Option, none, some}
use mathlib.Core.List.{List, [], ◌∷◌, map}
use native.Mathlib.Omega.{arith}
use cloud_agent_sandbox.Base.Tests.{◌==◌, ==_refl, if◌then◌else◌}
use cloud_agent_sandbox.Base.Bytes.{Text, text_eq}
use cloud_agent_sandbox.Base.Lists.{tally}

abbrev pub Dict {ℓ} : Type ℓ → Type ℓ
Dict V = List (Text × V)

module _ {ℓ} {V : Type ℓ} where
  unfoldable pub lookup : Text → Dict V → Option V
  lookup k [] = none
  lookup k ((i, x) ∷ m) = if i == k then some x else lookup k m

  unfoldable pub remove : Text → Dict V → Dict V
  remove k [] = []
  remove k ((j, w) ∷ m) = if j == k then remove k m else (j, w) ∷ remove k m

  unfoldable pub insert : Text → V → Dict V → Dict V
  insert k v [] = (k, v) ∷ []
  insert k v ((i, x) ∷ m) = if i == k then (k, v) ∷ m else (i, x) ∷ insert k v m

  abbrev pub values : Dict V → List V
  values = map (λ p. p.1)

  -- How many values pass a test.
  unfoldable pub count : (V → Bool) → Dict V → ℕ
  count p [] = 0
  count p ((j, w) ∷ m) = if p w then suc (count p m) else count p m

  pub lookup-insert :
      (k l : Text) (v : V) (m : Dict V)
      → lookup l (insert k v m) ≡ (if k == l then some v else lookup l m)
  unfolding lookup insert
  lookup-insert k l v [] = refl
  lookup-insert k l v ((j, x) ∷ m) =
      ground (
        arith,
        text_eq.beq_iff k l,
        text_eq.beq_iff j k,
        text_eq.beq_iff j l,
        lookup-insert k l v m,
      )

  pub lookup-remove :
      (k j : Text) (m : Dict V) → lookup j (remove k m) ≡ (if k == j then none else lookup j m)
  unfolding lookup remove
  lookup-remove k j [] = ground arith
  lookup-remove k j ((i, w) ∷ m) =
      ground
        (arith, text_eq.beq_iff k j, text_eq.beq_iff i k, text_eq.beq_iff i j, lookup-remove k j m)

  pub lookup-insert_self : (k : Text) (v : V) (m : Dict V) → lookup k (insert k v m) ≡ some v
  lookup-insert_self k v m = simp (lookup-insert, ==_refl)

  pub lookup-remove_self : (k : Text) (m : Dict V) → lookup k (remove k m) ≡ none
  lookup-remove_self k m = simp (lookup-remove, ==_refl)

  pub lookup-insert_ne :
      (k j : Text) (v : V) (m : Dict V) → k ≢ j → lookup j (insert k v m) ≡ lookup j m
  lookup-insert_ne k j v m h = rw lookup-insert (ground (arith, text_eq.beq_iff k j))

  -- What an insertion does to a count: the old value under the key leaves, the new one comes.
  abbrev pub weigh : (V → Bool) → Option V → ℕ
  weigh p none = 0
  weigh p (some v) = if p v then 1 else 0

  pub count-insert :
      (p : V → Bool) (k : Text) (v : V) (m : Dict V)
      → count p (insert k v m) + weigh p (lookup k m) ≡ count p m + weigh p (some v)
  unfolding lookup insert count
  count-insert p k v [] = ground arith
  count-insert p k v ((j, w) ∷ m) = ground (arith, count-insert p k v m)

  pub count-remove-le : (p : V → Bool) (k : Text) (m : Dict V) → count p (remove k m) ≤ count p m
  unfolding remove count
  count-remove-le p k [] = omega arith
  count-remove-le p k ((j, w) ∷ m) = ground (arith, count-remove-le p k m)

  pub tally-values : (p : V → Bool) (m : Dict V) → tally p (values m) ≡ count p m
  unfolding count
  tally-values p [] = refl
  tally-values p ((j, w) ∷ m) = ground (arith, tally-values p m)

  -- No key occurs twice.
  abbrev pub HasUniqueKeys : Dict V → Type ℓ
  HasUniqueKeys [] = Unit
  HasUniqueKeys ((k, v) ∷ m) = (lookup k m ≡ none) × HasUniqueKeys m

  pub insert-HasUniqueKeys :
      (k : Text) (v : V) (m : Dict V) → HasUniqueKeys m → HasUniqueKeys (insert k v m)
  unfolding insert lookup
  insert-HasUniqueKeys k v [] u = (refl, tt)
  insert-HasUniqueKeys k v ((j, w) ∷ m) u = ground (
    arith,
    insert-HasUniqueKeys k v m u.1,
    lookup-insert k j v m,
    text_eq.beq_iff j k,
    text_eq.beq_iff k j,
  )

  pub remove-HasUniqueKeys : (k : Text) (m : Dict V) → HasUniqueKeys m → HasUniqueKeys (remove k m)
  unfolding remove
  remove-HasUniqueKeys k [] u = tt
  remove-HasUniqueKeys k ((j, w) ∷ m) u =
      ground (arith, remove-HasUniqueKeys k m u.1, lookup-remove k j m)

  -- The second write under a key hides the first.
  pub insert-insert : (k : Text) (v w : V) (m : Dict V) → insert k w (insert k v m) ≡ insert k w m
  unfolding insert
  insert-insert k v w [] = ground (arith, text_eq.beq_iff k k)
  insert-insert k v w ((j, u) ∷ m) = ground (arith, insert-insert k v w m, text_eq.beq_iff k k)
