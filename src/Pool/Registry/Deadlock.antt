-- ===== src/Pool/Registry/Deadlock.antt =====
-- No goroutine waits for ever: the one it waits for can go on.
use orcacommon.Common.{
  ℕ, ◌<◌, ◌≡◌, refl, subst, ◌≢◌, Bool, true, false, Option, none, some, [], ◌∷◌, arith, Bool-cases,
  inl, inr, ◌⊎◌,
}
use orcacommon.Common.Text.{Text}
use orcacommon.Pool.Registry.{Store, find_key, is_done_of}
use orcacommon.Pool.Registry.Threads.{
  Pc, opening, fast, fast_wait, fast_again, slow, slow_wait, slow_again, replacing, creating,
  storing, releasing, dropping, ending, closing, taking, close_wait, close_pool, close_release,
  close_stop, awaiting_signal, shut_entries, shut_wait, shut_pool, shut_release, shut_instances,
  shut_stop, shut_stragglers, shut_last, returned, Choice, when_done, step, World, Reached,
}
use orcacommon.Pool.Registry.Effect.{owns}
use orcacommon.Pool.Registry.Bounds.{mentions, Below}
use orcacommon.Pool.Registry.Progress.{Reached-IsRegular}

abbrev pub is_returned : Pc → Bool
is_returned (returned r) = true
is_returned _ = false

-- The entry for whose channel the goroutine waits.
unfoldable pub waits_for : Pc → Option ℕ
waits_for (fast_wait k e) = some e
waits_for (slow_wait k e) = some e
waits_for (close_wait e inst) = some e
waits_for (shut_wait (e ∷ es)) = some e
waits_for _ = none

-- Why there is no step.
abbrev Halted : Pc → Store → Option (Pc × Store) → Type 0
Halted p s none =
    (is_returned p ≡ true) ⊎ ((e : ℕ) × (waits_for p ≡ some e) × (is_done_of s e ≡ false))
Halted p s (some r) = Unit

when_done-Halted :
    (e : ℕ) (p q : Pc) (s : Store) → waits_for p ≡ some e → Halted p s (when_done e q s)
when_done-Halted e p q s h = elim (Bool-cases (is_done_of s e)) [
  | inl d ↦ rw d tt
  | inr d ↦ rw (d, Halted) (inr (e, h, d))
]

opening-Halted :
    (o : Option ℕ) (k : Text) (p : Pc) (s : Store)
    → Halted p s (elim o [ none ↦ some (slow k, s) | some e ↦ some (fast k e, s) ])
opening-Halted none k p s = tt
opening-Halted (some e) k p s = tt

step-Halted : (c : Choice) (p : Pc) (s : Store) → Halted p s (step c p s)
unfolding step waits_for
step-Halted c (opening []) s = tt
step-Halted c (opening (b ∷ k)) s =
    opening-Halted (find_key (b ∷ k) s.keys) (b ∷ k) (opening (b ∷ k)) s
step-Halted c (fast_wait k e) s = when_done-Halted e (fast_wait k e) (fast_again k e) s refl
step-Halted c (slow_wait k e) s = when_done-Halted e (slow_wait k e) (slow_again k e) s refl
step-Halted c (close_wait e inst) s =
    when_done-Halted e (close_wait e inst) (close_pool e inst) s refl
step-Halted c (closing []) s = tt
step-Halted c (closing (b ∷ k)) s = tt
step-Halted c (shut_wait []) s = tt
step-Halted c (shut_wait (e ∷ es)) s =
    when_done-Halted e (shut_wait (e ∷ es)) (shut_pool e es) s refl
step-Halted c (shut_stop []) s = tt
step-Halted c (shut_stop (i ∷ is)) s = tt
step-Halted c (shut_last []) s = tt
step-Halted c (shut_last (i ∷ is)) s = tt
step-Halted c (returned r) s = inl refl
step-Halted c (fast k e) s = tt
step-Halted c (fast_again k e) s = tt
step-Halted c (slow k) s = tt
step-Halted c (slow_again k e) s = tt
step-Halted c (replacing k) s = tt
step-Halted c (creating k e) s = tt
step-Halted c (storing e p) s = tt
step-Halted c (releasing k e) s = tt
step-Halted c (dropping k e) s = tt
step-Halted c (ending e r) s = tt
step-Halted c (taking k o) s = tt
step-Halted c (close_pool e inst) s = tt
step-Halted c (close_release e inst) s = tt
step-Halted c (close_stop inst) s = tt
step-Halted c awaiting_signal s = tt
step-Halted c shut_entries s = tt
step-Halted c (shut_pool e es) s = tt
step-Halted c (shut_release e es) s = tt
step-Halted c shut_instances s = tt
step-Halted c shut_stragglers s = tt

some_injective : {a b : ℕ} → some a ≡ some b → a ≡ b
some_injective h = cc

-- An owner never waits.
owner_goes_on : (c : Choice) (p : Pc) (s : Store) (e : ℕ) → owns p ≡ some e → step c p s ≢ none
unfolding step owns
owner_goes_on c (creating k e) s i h = λ j. cc
owner_goes_on c (storing e p) s i h = λ j. cc
owner_goes_on c (releasing k e) s i h = λ j. cc
owner_goes_on c (dropping k e) s i h = λ j. cc
owner_goes_on c (ending e r) s i h = λ j. cc
owner_goes_on c _ s i h = cc

waits_for-made : (n e : ℕ) (p : Pc) → waits_for p ≡ some e → Below n (mentions p) → e < n
unfolding waits_for mentions
waits_for-made n i (fast_wait k e) h m = omega (arith, m.0, some_injective h)
waits_for-made n i (slow_wait k e) h m = omega (arith, m.0, some_injective h)
waits_for-made n i (close_wait e inst) h m = omega (arith, m.0, some_injective h)
waits_for-made n i (shut_wait (e ∷ es)) h m = omega (arith, m.0, some_injective h)
waits_for-made n i _ h m = cc

-- Whoever cannot go on has returned, or waits for an entry that another goroutine owns which can go
-- on, whatever happens to it: no interleaving of opening, closing and shutting down is a deadlock.
pub no_deadlock :
    (w : World) (t : ℕ) (c : Choice)
    → Reached w
    → step c (w.threads t) w.store ≡ none
    → is_returned (w.threads t) ≡ false
    → (e : ℕ) × (u : ℕ) × (waits_for (w.threads t) ≡ some e)
      × (owns (w.threads u) ≡ some e)
      × ((d : Choice) → step d (w.threads u) w.store ≢ none)
no_deadlock w t c r h open_thread =
    let regular = Reached-IsRegular w r in
    let p = w.threads t in
    let halted : (is_returned p ≡ true)
        ⊎ ((e : ℕ) × (waits_for p ≡ some e) × (is_done_of w.store e ≡ false)) =
      subst (Halted p w.store) h (step-Halted c p w.store) in
    elim halted [
      | inl b ↦ absurd (cc)
      | inr (e, waiting, not_done) ↦
          let made = waits_for-made w.store.next e p waiting (regular.pointed t) in
          let owned = regular.owned in
          let (u, o) = owned.has_owner e made not_done in
          (e, u, waiting, o, λ d. owner_goes_on d (w.threads u) w.store e o)
    ]

-- A channel that a goroutine is about to close is open, and no other goroutine is to close it: no
-- channel is closed twice.
pub closes_once :
    (w : World) (t e : ℕ)
    → Reached w
    → owns (w.threads t) ≡ some e
    → (is_done_of w.store e ≡ false) × ((u : ℕ) → owns (w.threads u) ≡ some e → u ≡ t)
closes_once w t e r h =
    let regular = Reached-IsRegular w r in
    let owned = regular.owned in (owned.is_open t e h, λ u o. owned.unique u t e o h)
