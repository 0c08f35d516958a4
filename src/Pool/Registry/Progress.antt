-- ===== src/Pool/Registry/Progress.antt =====
-- In every state that the goroutines come to: each channel that is open has one owner, which can go on.
use orcacommon.Common.{
  ℕ, ◌≤◌, ◌≡◌, refl, subst, ◌==◌, if◌then◌else◌, false, Option, none, some, List, [], ◌∷◌, arith,
  Bool-cases, inl, inr,
}
use orcacommon.Pool.Registry.{Store, is_done_of, values}
use orcacommon.Pool.Registry.Threads.{
  Pc, Choice, step, World, set_thread, after, IsInitial, opens, closes, awaits, Reached, begin,
  moved,
}
use orcacommon.Pool.Registry.Effect.{owns, Effect, EffectOf, step-Effect}
use orcacommon.Pool.Registry.Bounds.{mentions, Below, BoundedBy, step-BoundedBy}
use orcacommon.Pool.Registry.Owners.{IsOwned, no_owner, keeps-IsOwned, makes-IsOwned, ends-IsOwned}

abbrev owner : World → ℕ → Option ℕ
owner w t = owns (w.threads t)

-- Owners, and what is pointed to was made.
pub record IsRegular (w : World) : Type 0 where
  pub owned : IsOwned (λ t. owns (w.threads t)) (is_done_of w.store) w.store.next
  pub pointed : (t : ℕ) → Below w.store.next (mentions (w.threads t))
  pub keyed : Below w.store.next (values w.store.keys)

initial-owns : (p : Pc) → IsInitial p → owns p ≡ none
unfolding owns
initial-owns p (opens k) = refl
initial-owns p (closes k) = refl
initial-owns p awaits = refl

initial-mentions : (n : ℕ) (p : Pc) → IsInitial p → Below n (mentions p)
unfolding mentions
initial-mentions n p (opens k) = tt
initial-mentions n p (closes k) = tt
initial-mentions n p awaits = tt

owns-set_thread :
    (t : ℕ) (pc : Pc) (f : ℕ → Pc) (u : ℕ)
    → owns (set_thread t pc f u) ≡ (if u == t then owns pc else owns (f u))
owns-set_thread t pc f u = elim (Bool-cases (u == t)) [ inl e ↦ rw e refl | inr e ↦ rw e refl ]

Effect-IsOwned :
    (w : World) (t : ℕ) (pc : Pc) (s : Store)
    → Effect (w.threads t) w.store pc s
    → IsOwned (λ u. owns (w.threads u)) (is_done_of w.store) w.store.next
    → IsOwned (λ u. owns (set_thread t pc w.threads u)) (is_done_of s) s.next
Effect-IsOwned w t pc s (inl (o, n, d)) inv =
    keeps-IsOwned (λ u. owns (w.threads u)) (λ u. owns (set_thread t pc w.threads u))
      (is_done_of w.store) (is_done_of s) w.store.next s.next inv
      (λ u. ground (arith, owns-set_thread t pc w.threads u, o)) d n
Effect-IsOwned w t pc s (inr (inl (o, p, n, d))) inv =
    makes-IsOwned (λ u. owns (w.threads u)) (λ u. owns (set_thread t pc w.threads u))
      (is_done_of w.store) (is_done_of s) w.store.next s.next inv t o
      (λ u. ground (arith, owns-set_thread t pc w.threads u, p)) d n
Effect-IsOwned w t pc s (inr (inr (e, (o, p, n, d)))) inv =
    ends-IsOwned (λ u. owns (w.threads u)) (λ u. owns (set_thread t pc w.threads u))
      (is_done_of w.store) (is_done_of s) w.store.next s.next inv t e o
      (λ u. ground (arith, owns-set_thread t pc w.threads u, p)) d n

next-le : (p q : Pc) (s t : Store) → Effect p s q t → s.next ≤ t.next
next-le p q s t (inl (o, n, d)) = omega (arith, n)
next-le p q s t (inr (inl (o, k, n, d))) = omega (arith, n)
next-le p q s t (inr (inr (e, (o, k, n, d)))) = omega (arith, n)

Below-le : (n m : ℕ) (es : List ℕ) → n ≤ m → Below n es → Below m es
Below-le n m [] l h = tt
Below-le n m (e ∷ es) l h = (omega (arith, h.0), Below-le n m es l h.1)

pointed-set_thread :
    (m t : ℕ) (pc : Pc) (f : ℕ → Pc) (u : ℕ)
    → Below m (mentions pc)
    → Below m (mentions (f u))
    → Below m (mentions (set_thread t pc f u))
pointed-set_thread m t pc f u h k = elim (Bool-cases (u == t)) [ inl e ↦ rw e h | inr e ↦ rw e k ]

after-IsRegular :
    (w : World) (c : Choice) (t : ℕ) (pc : Pc) (s : Store)
    → step c (w.threads t) w.store ≡ some (pc, s)
    → IsRegular w
    → IsRegular (after t pc s w)
after-IsRegular w c t pc s e inv =
    let p = w.threads t in
    let effect : Effect p w.store pc s = subst (EffectOf p w.store) e (step-Effect c p w.store) in
    let bounded : Below s.next (mentions pc) × Below s.next (values s.keys) =
      subst BoundedBy e (step-BoundedBy c p w.store (inv.pointed t) inv.keyed) in
    record {
      owned = Effect-IsOwned w t pc s effect inv.owned;
      pointed = λ u. pointed-set_thread s.next t pc w.threads u bounded.0 (
          Below-le w.store.next s.next (mentions (w.threads u)) (next-le p pc w.store s effect)
            (inv.pointed u));
      keyed = bounded.1;
    }

-- In every state that is reached, whatever the order of the steps: a goroutine that is to close a
-- channel is the only one that is, and the channel is open; each open channel has such a goroutine;
-- and what goroutines and the registry point to was made.
pub Reached-IsRegular : (w : World) → Reached w → IsRegular w
Reached-IsRegular w (begin threads h) = record {
  owned = no_owner (λ t. owns (threads t)) (λ e. false) (λ t. initial-owns (threads t) (h t));
  pointed = λ t. initial-mentions 0 (threads t) (h t);
  keyed = tt;
}
Reached-IsRegular w (moved {w = v} c t pc s r e) =
    after-IsRegular v c t pc s e (Reached-IsRegular v r)
