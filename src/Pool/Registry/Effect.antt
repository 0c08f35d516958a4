-- ===== src/Pool/Registry/Effect.antt =====
-- What one step does to the entries and their owners. The owner of an entry is the goroutine that
-- creates its pool; the other goroutines wait for it.
use orcacommon.Common.{
  ℕ, suc, ◌≡◌, refl, sym, ◌∙◌, ◌==◌, if◌then◌else◌, Bool, true, false, Option, none, some, [], ◌∷◌,
  arith, Option-cases, Bool-cases, inl, inr, ◌⊎◌,
}
use orcacommon.Common.Text.{Text}
use orcacommon.Pool.Registry.{
  Store, find_key, set_pool, pool_of, is_done_of, attach_acquired, release_all, add_entry,
  remove_key, close_done, log_pool, log_stop, register_instance, withdraw_instance, clear_instances,
  put_key,
}
use orcacommon.Pool.Registry.Threads.{
  Pc, opening, fast, fast_wait, fast_again, slow, slow_wait, slow_again, replacing, creating,
  storing, releasing, dropping, ending, closing, taking, close_wait, close_pool, close_release,
  close_stop, awaiting_signal, shut_entries, shut_wait, shut_pool, shut_release, shut_instances,
  shut_stop, shut_stragglers, shut_last, returned, Choice, go, attach_own, attach_keyed, register,
  withdraw, succeed, fail, attach_found, register_step, slow_found, opened_or, create_step,
  when_done, slow_step, after_take, step,
}

-- The entry whose channel the goroutine has to close.
unfoldable pub owns : Pc → Option ℕ
owns (creating k e) = some e
owns (storing e p) = some e
owns (releasing k e) = some e
owns (dropping k e) = some e
owns (ending e r) = some e
owns _ = none

abbrev pub SameDone : Store → Store → Type 0
SameDone s t = (e : ℕ) → is_done_of t e ≡ is_done_of s e

-- The step neither makes an entry nor closes a channel.
abbrev pub Keeps : Pc → Store → Pc → Store → Type 0
Keeps p s q t = (owns q ≡ owns p) × (t.next ≡ s.next) × SameDone s t

-- The step makes an entry and owns it.
abbrev pub Makes : Pc → Store → Pc → Store → Type 0
Makes p s q t =
    (owns p ≡ none)
    × (owns q ≡ some s.next)
    × (t.next ≡ suc s.next)
    × ((e : ℕ) → is_done_of t e ≡ (if e == s.next then false else is_done_of s e))

-- The step closes the channel of the entry that the goroutine owns.
abbrev pub Ends : ℕ → Pc → Store → Pc → Store → Type 0
Ends e p s q t =
    (owns p ≡ some e)
    × (owns q ≡ none)
    × (t.next ≡ s.next)
    × ((i : ℕ) → is_done_of t i ≡ (if i == e then true else is_done_of s i))

abbrev pub Effect : Pc → Store → Pc → Store → Type 0
Effect p s q t = Keeps p s q t ⊎ (Makes p s q t ⊎ ((e : ℕ) × Ends e p s q t))

abbrev pub EffectOf : Pc → Store → Option (Pc × Store) → Type 0
EffectOf p s none = Unit
EffectOf p s (some (q, t)) = Effect p s q t

done-set_pool : (e : ℕ) (p : Option ℕ) (s : Store) → SameDone s (set_pool e p s)
done-set_pool e p s i = ground arith

done-attach_acquired : (e r : ℕ) (s : Store) → SameDone s (attach_acquired e r s)
unfolding attach_acquired
done-attach_acquired e r s i = ground arith

done-release_all : (e : ℕ) (s : Store) → SameDone s (release_all e s)
unfolding release_all
done-release_all e s i = ground arith

done-log_pool : (p : Option ℕ) (s : Store) → SameDone s (log_pool p s)
done-log_pool none s i = refl
done-log_pool (some p) s i = refl

done-log_stop : (p : Option ℕ) (s : Store) → SameDone s (log_stop p s)
done-log_stop none s i = refl
done-log_stop (some p) s i = refl

done-close_done :
    (e : ℕ) (s : Store) (i : ℕ)
    → is_done_of (close_done e s) i ≡ (if i == e then true else is_done_of s i)
unfolding close_done
done-close_done e s i = ground arith

done-add_entry :
    (k : Text) (s : Store) (i : ℕ)
    → is_done_of (add_entry k s) i ≡ (if i == s.next then false else is_done_of s i)
unfolding add_entry
done-add_entry k s i = ground arith

owns-opened_or : (p : Option ℕ) (next : Pc) → owns next ≡ none → owns (opened_or p next) ≡ none
unfolding owns
owns-opened_or none next h = h
owns-opened_or (some p) next h = refl

next-log_pool : (p : Option ℕ) (s : Store) → (log_pool p s).next ≡ s.next
next-log_pool none s = refl
next-log_pool (some p) s = refl

next-log_stop : (p : Option ℕ) (s : Store) → (log_stop p s).next ≡ s.next
next-log_stop none s = refl
next-log_stop (some p) s = refl

-- A change of the pools and the resources only.
abbrev pub KeepsStore : Store → Store → Type 0
KeepsStore s t = (t.next ≡ s.next) × SameDone s t

keeps-attach : (o : Option ℕ) (r : ℕ) (s : Store) → KeepsStore s (attach_found o r s)
unfolding attach_acquired
keeps-attach none r s = (refl, λ i. refl)
keeps-attach (some f) r s = (refl, done-attach_acquired f r s)

keeps-log_stop : (o : Option ℕ) (s : Store) → KeepsStore s (log_stop o s)
keeps-log_stop none s = (refl, λ i. refl)
keeps-log_stop (some i) s = (refl, λ i. refl)

keeps-take_pool : (e : ℕ) (o : Option ℕ) (s : Store) → KeepsStore s (log_pool o (set_pool e none s))
keeps-take_pool e none s = (refl, done-set_pool e none s)
keeps-take_pool e (some p) s = (refl, done-set_pool e none s)

keeps-register_instance : (k : Text) (i : ℕ) (s : Store) → KeepsStore s (register_instance k i s)
unfolding register_instance
keeps-register_instance k i s =
    keeps-log_stop (find_key k s.instances) (record s { instances = put_key k i s.instances })

keeps-release_all : (e : ℕ) (s : Store) → KeepsStore s (release_all e s)
unfolding release_all
keeps-release_all e s = (refl, done-release_all e s)

register_step-Effect :
    (b : Bool) (k : Text) (i e : ℕ) (s : Store)
    → EffectOf (creating k e) s (some (register_step b k i e s))
unfolding owns
register_step-Effect true k i e s = inl (refl, refl, λ j. refl)
register_step-Effect false k i e s =
    let kept = keeps-register_instance k i s in inl (refl, kept.0, kept.1)

create_step-Effect :
    (c : Choice) (k : Text) (e : ℕ) (s : Store)
    → EffectOf (creating k e) s (some (create_step c k e s))
unfolding create_step owns withdraw_instance
create_step-Effect go k e s = inl (refl, refl, λ i. refl)
create_step-Effect (attach_own r) k e s =
    let kept = keeps-attach (some e) r s in inl (refl, kept.0, kept.1)
create_step-Effect (attach_keyed r) k e s =
    let kept = keeps-attach (find_key k s.keys) r s in inl (refl, kept.0, kept.1)
create_step-Effect (register i) k e s = register_step-Effect s.shutting_down k i e s
create_step-Effect (withdraw i) k e s = inl (refl, refl, λ j. refl)
create_step-Effect (succeed p) k e s = inl (refl, refl, λ i. refl)
create_step-Effect fail k e s = inl (refl, refl, λ i. refl)

when_done-Effect : (e : ℕ) (p q : Pc) (s : Store) → owns q ≡ owns p → EffectOf p s (when_done e q s)
when_done-Effect e p q s h = elim (Bool-cases (is_done_of s e)) [
  | inl d ↦ rw d (inl (h, refl, λ i. refl))
  | inr d ↦ rw d tt
]

add_entry-Effect :
    (k : Text) (p : Pc) (s : Store)
    → owns p ≡ none
    → EffectOf p s (some (creating k s.next, add_entry k s))
unfolding owns add_entry
add_entry-Effect k p s h = inr (inl (h, refl, refl, done-add_entry k s))

opened_or-Effect :
    (o : Option ℕ) (p q : Pc) (s : Store)
    → owns p ≡ none
    → owns q ≡ none
    → EffectOf p s (some (opened_or o q, s))
opened_or-Effect o p q s h l = inl (owns-opened_or o q l ∙ sym h, refl, λ i. refl)

slow_found-Effect :
    (o : Option ℕ) (k : Text) (s : Store) → EffectOf (slow k) s (some (slow_found o k s))
unfolding owns
slow_found-Effect none k s = add_entry-Effect k (slow k) s refl
slow_found-Effect (some e) k s = opened_or-Effect (pool_of s e) (slow k) (slow_wait k e) s refl refl

opening-Effect :
    (b : ℕ) (k : Text) (c : Choice) (s : Store)
    → EffectOf (opening (b ∷ k)) s (step c (opening (b ∷ k)) s)
unfolding step owns
opening-Effect b k c s = elim (Option-cases (find_key (b ∷ k) s.keys)) [
  | inl e ↦ rw (step, e) (inl (refl, refl, λ i. refl))
  | inr (f, e) ↦ rw (step, e) (inl (refl, refl, λ i. refl))
]

owns-after_take : (o p : Option ℕ) → owns (after_take o p) ≡ none
unfolding owns
owns-after_take (some e) p = refl
owns-after_take none none = refl
owns-after_take none (some i) = refl

-- Every step has one of the effects.
pub step-Effect : (c : Choice) (p : Pc) (s : Store) → EffectOf p s (step c p s)
unfolding step slow_step owns remove_key close_done clear_instances
step-Effect c (opening []) s = inl (refl, refl, λ i. refl)
step-Effect c (opening (b ∷ k)) s = opening-Effect b k c s
step-Effect c (fast k e) s = opened_or-Effect (pool_of s e) (fast k e) (fast_wait k e) s refl refl
step-Effect c (fast_wait k e) s = when_done-Effect e (fast_wait k e) (fast_again k e) s refl
step-Effect c (fast_again k e) s =
    opened_or-Effect (pool_of s e) (fast_again k e) (slow k) s refl refl
step-Effect c (slow k) s = slow_found-Effect (find_key k s.keys) k s
step-Effect c (slow_wait k e) s = when_done-Effect e (slow_wait k e) (slow_again k e) s refl
step-Effect c (slow_again k e) s =
    opened_or-Effect (pool_of s e) (slow_again k e) (replacing k) s refl refl
step-Effect c (replacing k) s = add_entry-Effect k (replacing k) s refl
step-Effect c (creating k e) s = create_step-Effect c k e s
step-Effect c (storing e p) s = inl (refl, refl, done-set_pool e (some p) s)
step-Effect c (releasing k e) s = let kept = keeps-release_all e s in inl (refl, kept.0, kept.1)
step-Effect c (dropping k e) s = inl (refl, refl, λ i. refl)
step-Effect c (ending e r) s = inr (inr (e, (refl, refl, refl, done-close_done e s)))
step-Effect c (closing []) s = inl (refl, refl, λ i. refl)
step-Effect c (closing (b ∷ k)) s = inl (refl, refl, λ i. refl)
step-Effect c (taking k o) s = inl (owns-after_take o (find_key k s.instances), refl, λ i. refl)
step-Effect c (close_wait e inst) s =
    when_done-Effect e (close_wait e inst) (close_pool e inst) s refl
step-Effect c (close_pool e inst) s =
    let kept = keeps-take_pool e (pool_of s e) s in inl (refl, kept.0, kept.1)
step-Effect c (close_release e inst) s =
    let kept = keeps-release_all e s in inl (refl, kept.0, kept.1)
step-Effect c (close_stop inst) s = let kept = keeps-log_stop inst s in inl (refl, kept.0, kept.1)
step-Effect c awaiting_signal s = inl (refl, refl, λ i. refl)
step-Effect c shut_entries s = inl (refl, refl, λ i. refl)
step-Effect c (shut_wait []) s = inl (refl, refl, λ i. refl)
step-Effect c (shut_wait (e ∷ es)) s =
    when_done-Effect e (shut_wait (e ∷ es)) (shut_pool e es) s refl
step-Effect c (shut_pool e es) s =
    let kept = keeps-take_pool e (pool_of s e) s in inl (refl, kept.0, kept.1)
step-Effect c (shut_release e es) s = let kept = keeps-release_all e s in inl (refl, kept.0, kept.1)
step-Effect c shut_instances s = inl (refl, refl, λ i. refl)
step-Effect c (shut_stop []) s = inl (refl, refl, λ i. refl)
step-Effect c (shut_stop (i ∷ is)) s = inl (refl, refl, λ i. refl)
step-Effect c shut_stragglers s = inl (refl, refl, λ i. refl)
step-Effect c (shut_last []) s = inl (refl, refl, λ i. refl)
step-Effect c (shut_last (i ∷ is)) s = inl (refl, refl, λ i. refl)
step-Effect c (returned r) s = tt
