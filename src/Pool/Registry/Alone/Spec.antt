-- ===== src/Pool/Registry/Alone/Spec.antt =====
-- What the registry promises: a map from keys to pools, and what opening and closing do to it.
use orcacommon.Common.{
  ℕ, ◌≡◌, refl, sym, ap, ◌∙◌, if◌then◌else◌, true, Option, none, some, [], ◌∷◌, arith, Option-cases,
  inl, inr,
}
use orcacommon.Common.Text.{Text, text_eq}
use orcacommon.Common.Text.Laws.{text_eq_sound}
use orcacommon.Pool.Registry.{Store, find_key, pool_of, log_stop}
use orcacommon.Pool.Registry.Threads.{
  Result, Pc, opening, closing, returned, opened, open_failed, closed, key_required, Choice, go,
  succeed, fail, step,
}
use orcacommon.Pool.Registry.Alone.{solo, view, view-known, view-unknown, IsQuiet, view-kept}
use orcacommon.Pool.Registry.Alone.Open.{
  given_up, open_known, open_new, open_failing, created-IsQuiet, given_up-IsQuiet, given_up-Keeps,
  view-created, keys-given_up,
}
use orcacommon.Pool.Registry.Alone.Close.{
  taken, closed_store, close_known, close_unknown, Removes-view, Removes-IsQuiet,
  close_known-Removes, close_unknown-Removes,
}

abbrev pub Pools : Type 0
Pools = Text → Option ℕ

-- `open_key k o` opens a key, where a creation would give the pool `o`.
pub data Operation : Type 0 where
  open_key : Text → Option ℕ → Operation
  close_key : Text → Operation

abbrev opened_as : Option ℕ → Option ℕ → Result
opened_as (some p) o = opened p
opened_as none (some p) = opened p
opened_as none none = open_failed

-- The result by the map: a pool that is there is returned, a new one if there is none.
unfoldable pub spec_result : Operation → Pools → Result
spec_result (open_key [] o) m = key_required
spec_result (open_key (b ∷ k) o) m = opened_as (m (b ∷ k)) o
spec_result (close_key []) m = key_required
spec_result (close_key (b ∷ k)) m = closed

abbrev kept_or : Option ℕ → Option ℕ → Option ℕ
kept_or (some p) o = some p
kept_or none o = o

-- The map afterwards.
unfoldable pub spec_pools : Operation → Pools → Pools
spec_pools (open_key [] o) m j = m j
spec_pools (open_key (b ∷ k) o) m j = if text_eq (b ∷ k) j then kept_or (m (b ∷ k)) o else m j
spec_pools (close_key []) m j = m j
spec_pools (close_key (b ∷ k)) m j = if text_eq (b ∷ k) j then none else m j

-- The goroutine that does the operation, and what the environment decides for it.
abbrev pub goroutine : Operation → Pc
goroutine (open_key k o) = opening k
goroutine (close_key k) = closing k

abbrev pub choice : Operation → Choice
choice (open_key k none) = fail
choice (open_key k (some p)) = succeed p
choice (close_key k) = go

-- The outcome agrees with the specification.
abbrev pub IsAgreed : Operation → Store → Pc × Store → Type 0
IsAgreed op s r =
    (r.0 ≡ returned (spec_result op (view s)))
    × ((j : Text) → view r.1 j ≡ spec_pools op (view s) j)
    × IsQuiet r.1

same_key : (k j : Text) (m : Pools) → text_eq k j ≡ true → m j ≡ m k
same_key k j m h = ap m (sym (text_eq_sound k j h))

open_known-IsAgreed :
    (b : ℕ) (k : Text) (o : Option ℕ) (s : Store) (e : ℕ)
    → IsQuiet s
    → find_key (b ∷ k) s.keys ≡ some e
    → IsAgreed (open_key (b ∷ k) o) s (solo 8 (choice (open_key (b ∷ k) o)) (opening (b ∷ k)) s)
unfolding spec_result spec_pools
open_known-IsAgreed b k o s e q h = elim (Option-cases (pool_of s e)) [
  | inl n ↦ absurd (q.has_pool (b ∷ k) e h n)
  | inr (p, l) ↦
      let there : view s (b ∷ k) ≡ some p = view-known s (b ∷ k) e h ∙ l in
      rw (open_known (choice (open_key (b ∷ k) o)) b k s e p h l, there)
        (refl, λ j. ground (arith, same_key (b ∷ k) j (view s), there), q)
]

open_unknown-IsAgreed :
    (b : ℕ) (k : Text) (o : Option ℕ) (s : Store)
    → IsQuiet s
    → find_key (b ∷ k) s.keys ≡ none
    → IsAgreed (open_key (b ∷ k) o) s (solo 8 (choice (open_key (b ∷ k) o)) (opening (b ∷ k)) s)
unfolding spec_result spec_pools
open_unknown-IsAgreed b k none s q h =
    let missing = view-unknown s (b ∷ k) h in
    let same = λ (j : Text).
      view-kept s (given_up (b ∷ k) s) j q (given_up-Keeps (b ∷ k) s)
        (keys-given_up j (b ∷ k) s h) in
    rw (open_failing b k s h, missing)
      (
        refl,
        λ j. ground (arith, same j, same_key (b ∷ k) j (view s), missing),
        given_up-IsQuiet (b ∷ k) s h q,
      )
open_unknown-IsAgreed b k (some p) s q h =
    let missing = view-unknown s (b ∷ k) h in
    rw (open_new b k s p h, missing)
      (refl, λ j. view-created (b ∷ k) j p s q, created-IsQuiet (b ∷ k) p s q)

close-IsAgreed :
    (b : ℕ) (k : Text) (s : Store)
    → IsQuiet s
    → IsAgreed (close_key (b ∷ k)) s (solo 8 go (closing (b ∷ k)) s)
unfolding spec_result spec_pools
close-IsAgreed b k s q = elim (Option-cases (find_key (b ∷ k) s.keys)) [
  | inl h ↦
      let t = log_stop (find_key (b ∷ k) s.instances) (taken (b ∷ k) s) in
      let gone = close_unknown-Removes b k s in
      rw (close_unknown b k s h)
        (refl, λ j. Removes-view (b ∷ k) j s t gone, Removes-IsQuiet (b ∷ k) s t gone q)
  | inr (e, h) ↦ elim (Option-cases (pool_of s e)) [
    | inl n ↦ absurd (q.has_pool (b ∷ k) e h n)
    | inr (p, l) ↦
        let t = closed_store (b ∷ k) e p s in
        let gone = close_known-Removes b k s e p q h in
        rw (close_known b k s e p h (q.is_done (b ∷ k) e h) l)
          (refl, λ j. Removes-view (b ∷ k) j s t gone, Removes-IsQuiet (b ∷ k) s t gone q)
  ]
]

open_empty-IsAgreed :
    (c : Choice) (s : Store)
    → IsQuiet s
    → ((solo 8 c (opening []) s).0 ≡ returned key_required)
      × ((j : Text) → view (solo 8 c (opening []) s).1 j ≡ view s j)
      × IsQuiet (solo 8 c (opening []) s).1
unfolding solo step
open_empty-IsAgreed c s q = (refl, λ j. refl, q)

close_empty-IsAgreed :
    (s : Store)
    → IsQuiet s
    → ((solo 8 go (closing []) s).0 ≡ returned key_required)
      × ((j : Text) → view (solo 8 go (closing []) s).1 j ≡ view s j)
      × IsQuiet (solo 8 go (closing []) s).1
unfolding solo step
close_empty-IsAgreed s q = (refl, λ j. refl, q)

-- Used by one goroutine after the other, the registry is a map from keys to pools: opening a key
-- returns its pool if it has one, and otherwise puts the pool that was created under the key, or
-- nothing if that failed; closing a key removes it; an empty key is an error; and other keys keep
-- their pools. Between the operations it is such that this holds again.
pub solo-IsAgreed :
    (op : Operation) (s : Store) → IsQuiet s → IsAgreed op s (solo 8 (choice op) (goroutine op) s)
unfolding spec_result spec_pools
solo-IsAgreed (open_key [] none) s q = open_empty-IsAgreed fail s q
solo-IsAgreed (open_key [] (some p)) s q = open_empty-IsAgreed (succeed p) s q
solo-IsAgreed (open_key (b ∷ k) o) s q = elim (Option-cases (find_key (b ∷ k) s.keys)) [
  | inl h ↦ open_unknown-IsAgreed b k o s q h
  | inr (e, h) ↦ open_known-IsAgreed b k o s e q h
]
solo-IsAgreed (close_key []) s q = close_empty-IsAgreed s q
solo-IsAgreed (close_key (b ∷ k)) s q = close-IsAgreed b k s q
