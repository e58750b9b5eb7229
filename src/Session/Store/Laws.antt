-- ===== src/Session/Store/Laws.antt =====
-- internal/session/store.go: the well-formedness of the store and what the methods do to it.
use cloud_agent_sandbox.Base.{
  ℕ, ◌≡◌, ◌≢◌, refl, ◌∙◌, ap, ◌↔◌, ◌⊎◌, inl, inr, Bool, true, Option, none, some, List, [], ◌∷◌,
  Text, ◌==◌, text_eq, arith, length, select, length-select-tally, Option-cases,
}
use cloud_agent_sandbox.Base.Dict.{
  lookup, insert, remove, values, count, lookup-remove, lookup-insert_ne, tally-values,
  HasUniqueKeys, insert-HasUniqueKeys, remove-HasUniqueKeys,
}
use cloud_agent_sandbox.Session.Model.{State, state_eq, state_beq_iff, Session, Error, ok}
use cloud_agent_sandbox.Session.Store.{MemoryStore, create, update, delete, touch, list_by_state}

-- No key occurs twice, every session is stored under its own id, and no id is empty.
abbrev pub AllUnderId : MemoryStore → Type 0
AllUnderId [] = Unit
AllUnderId ((k, s) ∷ m) = (s.id ≡ k) × AllUnderId m

pub record IsValid (m : MemoryStore) : Type 0 where
  pub unique : HasUniqueKeys m
  pub under_id : AllUnderId m
  pub named : lookup [] m ≡ none

insert-AllUnderId :
    (k : Text) (s : Session) (m : MemoryStore) → s.id ≡ k → AllUnderId m → AllUnderId (insert k s m)
unfolding insert
insert-AllUnderId k s [] e u = (e, tt)
insert-AllUnderId k s ((j, t) ∷ m) e u = ground (arith, insert-AllUnderId k s m e u.1)

remove-AllUnderId : (k : Text) (m : MemoryStore) → AllUnderId m → AllUnderId (remove k m)
unfolding remove
remove-AllUnderId k [] u = tt
remove-AllUnderId k ((j, t) ∷ m) u = ground (arith, remove-AllUnderId k m u.1)

pub insert-IsValid :
    (s : Session) (m : MemoryStore) → s.id ≢ [] → IsValid m → IsValid (insert s.id s m)
insert-IsValid s m n v = record {
  unique = insert-HasUniqueKeys s.id s m v.unique;
  under_id = insert-AllUnderId s.id s m refl v.under_id;
  named = lookup-insert_ne s.id [] s m n ∙ v.named;
}

pub remove-IsValid : (k : Text) (m : MemoryStore) → IsValid m → IsValid (remove k m)
remove-IsValid k m v = record {
  unique = remove-HasUniqueKeys k m v.unique;
  under_id = remove-AllUnderId k m v.under_id;
  named = rw lookup-remove (ground arith);
}

under_id_of :
    (k : Text) (m : MemoryStore) (s : Session) → AllUnderId m → lookup k m ≡ some s → s.id ≡ k
unfolding lookup
under_id_of k [] s u e = cc
under_id_of k ((j, t) ∷ m) s u e = ground (arith, under_id_of k m s u.1, text_eq.beq_iff j k)

pub id-lookup :
    (k : Text) (m : MemoryStore) (s : Session) → IsValid m → lookup k m ≡ some s → s.id ≡ k
id-lookup k m s v = under_id_of k m s v.under_id

pub id-nonempty :
    (k : Text) (m : MemoryStore) (s : Session) → IsValid m → lookup k m ≡ some s → k ≢ []
id-nonempty k m s v e n = cc (v.named, ap (λ i. lookup i m) n)

pub create-IsValid :
    (c : Option Error) (o : Option Session) (m : MemoryStore) → IsValid m → IsValid (create c o m).0
unfolding create
create-IsValid (some e) o m v = v
create-IsValid none none m v = v
create-IsValid none (some s) m v = ground (arith, insert-IsValid s m, text_eq.beq_iff s.id [])

pub update-IsValid :
    (c : Option Error) (o : Option Session) (m : MemoryStore) → IsValid m → IsValid (update c o m).0
unfolding update
update-IsValid (some e) o m v = v
update-IsValid none none m v = v
update-IsValid none (some s) m v = ground (arith, insert-IsValid s m, text_eq.beq_iff s.id [])

pub delete-IsValid :
    (c : Option Error) (k : Text) (m : MemoryStore) → IsValid m → IsValid (delete c k m).0
unfolding delete
delete-IsValid (some e) k m v = v
delete-IsValid none k m v = ground (arith, remove-IsValid k m v)

pub touch-IsValid :
    (c : Option Error) (now : ℕ) (k : Text) (m : MemoryStore)
    → IsValid m
    → IsValid (touch c now k m).0
unfolding touch
touch-IsValid (some e) now k m v = v
touch-IsValid none now k m v = elim (Option-cases (lookup k m)) [
  | inl e ↦ rw (e, touch) v
  | inr (s, e) ↦
      rw (e, touch)
        record {
          unique = insert-HasUniqueKeys k _ m v.unique;
          under_id = insert-AllUnderId k _ m (id-lookup k m s v e) v.under_id;
          named = lookup-insert_ne k [] _ m (id-nonempty k m s v e) ∙ v.named;
        }
]

-- Membership in a listing.
abbrev pub In : Session → List Session → Type 0
In s [] = ⊥
In s (t ∷ ts) = (t ≡ s) ⊎ In s ts

In-select :
    (p : Session → Bool) (s : Session) (xs : List Session)
    → In s (select p xs)
    → In s xs × (p s ≡ true)
In-select p s [] i = absurd i
In-select p s (x ∷ xs) i = ground (arith, In-select p s xs)

select-In :
    (p : Session → Bool) (s : Session) (xs : List Session)
    → In s xs
    → p s ≡ true
    → In s (select p xs)
select-In p s [] i h = absurd i
select-In p s (x ∷ xs) i h = ground (arith, select-In p s xs)

In-values :
    (s : Session) (m : MemoryStore)
    → HasUniqueKeys m
    → AllUnderId m
    → In s (values m)
    → lookup s.id m ≡ some s
unfolding lookup
In-values s [] u a i = absurd i
In-values s ((k, t) ∷ m) u a (inl e) = ground (arith, text_eq.beq_iff k s.id)
In-values s ((k, t) ∷ m) u a (inr i) =
    ground (arith, In-values s m u.1 a.1 i, text_eq.beq_iff k s.id)

values-In : (k : Text) (s : Session) (m : MemoryStore) → lookup k m ≡ some s → In s (values m)
unfolding lookup
values-In k s [] e = cc
values-In k s ((j, t) ∷ m) e = ground (arith, values-In k s m)

-- From a well-formed store and a context that is not cancelled, a listing by state holds exactly
-- the sessions that a look-up finds in that state, and as many as the store counts.
pub list_by_state_exact :
    (st : State) (m : MemoryStore)
    → IsValid m
    → (xs : List Session) × (list_by_state none st m ≡ ok xs)
      × ((s : Session) → In s xs ↔ ((lookup s.id m ≡ some s) × (s.state ≡ st)))
      × (length xs ≡ count (λ s. s.state == st) m)
unfolding list_by_state
list_by_state_exact st m v =
    (select (λ s. s.state == st) (values m), refl, λ s. (found s, listed s), counted)
  where
    found :
        (s : Session)
        → In s (select (λ s. s.state == st) (values m))
        → (lookup s.id m ≡ some s) × (s.state ≡ st)
    found s i =
        let (i', h) = In-select (λ s. s.state == st) s (values m) i in
        (In-values s m v.unique v.under_id i', (state_beq_iff s.state st).0 h)

    listed :
        (s : Session)
        → (lookup s.id m ≡ some s) × (s.state ≡ st)
        → In s (select (λ s. s.state == st) (values m))
    listed s h =
        select-In (λ s. s.state == st) s (values m) (values-In s.id s m h.0)
          ((state_beq_iff s.state st).1 h.1)

    counted : length (select (λ s. s.state == st) (values m)) ≡ count (λ s. s.state == st) m
    counted = length-select-tally _ (values m) ∙ tally-values _ m
