-- ===== src/Pool/Registry/Stragglers.antt =====
-- Once the shutdown has taken the embedded servers, none is registered any more.
use orcacommon.Common.{
  ℕ, false-ne-true, ◌≡◌, refl, sym, subst, ◌∙◌, ◌==◌, Bool, true, false, Option, none, some, [],
  ◌∷◌, Bool-cases, inl, inr,
}
use orcacommon.Common.Text.{Text}
use orcacommon.Pool.Registry.{
  Store, Keyed, find_key, delete_key, set_pool, pool_of, is_done_of, attach_acquired, release_all,
  add_entry, remove_key, close_done, log_pool, log_stop, withdraw_instance, clear_instances,
}
use orcacommon.Pool.Registry.Threads.{
  Pc, opening, fast, fast_wait, fast_again, slow, slow_wait, slow_again, replacing, creating,
  storing, releasing, dropping, ending, closing, taking, close_wait, close_pool, close_release,
  close_stop, awaiting_signal, shut_entries, shut_wait, shut_pool, shut_release, shut_instances,
  shut_stop, shut_stragglers, shut_last, returned, closed, Choice, go, attach_own, attach_keyed,
  withdraw, register, succeed, fail, attach_found, register_step, slow_found, opened_or,
  create_step, when_done, slow_step, after_take, step, World, after, IsInitial, opens, closes,
  awaits, Reached, begin, moved,
}

-- How far a goroutine is with the shutdown.
pub data Phase : Type 0 where
  before_signal after_signal after_snapshot : Phase

unfoldable pub phase : Pc → Phase
phase shut_entries = after_signal
phase (shut_wait es) = after_signal
phase (shut_pool e es) = after_signal
phase (shut_release e es) = after_signal
phase shut_instances = after_signal
phase (shut_stop is) = after_snapshot
phase shut_stragglers = after_snapshot
phase (shut_last is) = after_snapshot
phase (returned r) = before_signal
phase _ = before_signal

-- What the phase says of the store.
abbrev pub Promise : Phase → Store → Type 0
Promise before_signal s = Unit
Promise after_signal s = s.shutting_down ≡ true
Promise after_snapshot s = (s.shutting_down ≡ true) × (s.instances ≡ [])

Promise-kept :
    (f : Phase) (s t : Store)
    → (s.shutting_down ≡ true → t.shutting_down ≡ true)
    → (s.shutting_down ≡ true → s.instances ≡ [] → t.instances ≡ [])
    → Promise f s
    → Promise f t
Promise-kept before_signal s t g k h = tt
Promise-kept after_signal s t g k h = g h
Promise-kept after_snapshot s t g k h = (g h.0, k h.0 h.1)

-- The step keeps what the phase of its goroutine says, and what it says of the others.
abbrev Shift : Pc → Store → Pc → Store → Type 0
Shift p s q t =
    (Promise (phase p) s → Promise (phase q) t)
    × (s.shutting_down ≡ true → t.shutting_down ≡ true)
    × (s.shutting_down ≡ true → s.instances ≡ [] → t.instances ≡ [])

abbrev ShiftOf : Pc → Store → Option (Pc × Store) → Type 0
ShiftOf p s none = Unit
ShiftOf p s (some (q, t)) = Shift p s q t

opened_or-Shift :
    (o : Option ℕ) (p q : Pc) (s : Store)
    → phase q ≡ before_signal
    → ShiftOf p s (some (opened_or o q, s))
unfolding phase
opened_or-Shift none p q s h = (λ k. rw h tt, λ f. f, λ f i. i)
opened_or-Shift (some e) p q s h = (λ k. tt, λ f. f, λ f i. i)

when_done-Shift : (e : ℕ) (p q : Pc) (s : Store) → phase q ≡ phase p → ShiftOf p s (when_done e q s)
when_done-Shift e p q s h = elim (Bool-cases (is_done_of s e)) [
  | inl d ↦ rw d (λ k. rw h k, λ f. f, λ f i. i)
  | inr d ↦ rw d tt
]

log_pool-Shift :
    (o : Option ℕ) (e : ℕ) (p q : Pc) (s : Store)
    → phase q ≡ phase p
    → Shift p s q (log_pool o (set_pool e none s))
log_pool-Shift none e p q s h =
    let t = set_pool e none s in
    (λ k. rw h (Promise-kept (phase p) s t (λ f. f) (λ f i. i) k), λ f. f, λ f i. i)
log_pool-Shift (some v) e p q s h =
    let t = log_pool (some v) (set_pool e none s) in
    (λ k. rw h (Promise-kept (phase p) s t (λ f. f) (λ f i. i) k), λ f. f, λ f i. i)

log_stop-Shift :
    (o : Option ℕ) (p q : Pc) (s : Store) → phase q ≡ before_signal → Shift p s q (log_stop o s)
log_stop-Shift none p q s h = (λ k. rw h tt, λ f. f, λ f i. i)
log_stop-Shift (some i) p q s h = (λ k. rw h tt, λ f. f, λ f j. j)

opening-Shift :
    (o : Option ℕ) (k : Text) (s : Store)
    → ShiftOf (opening k) s (elim o [ none ↦ some (slow k, s) | some e ↦ some (fast k e, s) ])
unfolding phase
opening-Shift none k s = (λ h. tt, λ f. f, λ f i. i)
opening-Shift (some e) k s = (λ h. tt, λ f. f, λ f i. i)

slow_found-Shift :
    (o : Option ℕ) (k : Text) (s : Store) → ShiftOf (slow k) s (some (slow_found o k s))
unfolding phase add_entry
slow_found-Shift none k s = (λ h. tt, λ f. f, λ f i. i)
slow_found-Shift (some e) k s = opened_or-Shift (pool_of s e) (slow k) (slow_wait k e) s refl

-- A server is registered only where the flag is not set.
register_step-Shift :
    (b : Bool) (k : Text) (i e : ℕ) (s : Store)
    → s.shutting_down ≡ b
    → ShiftOf (creating k e) s (some (register_step b k i e s))
unfolding phase
register_step-Shift true k i e s h = (λ k. tt, λ f. f, λ f j. j)
register_step-Shift false k i e s h =
    (λ k. tt, λ f. absurd (false-ne-true (sym h ∙ f)), λ f j. absurd (false-ne-true (sym h ∙ f)))

attach_found-Shift :
    (o : Option ℕ) (r : ℕ) (k : Text) (e : ℕ) (s : Store)
    → Shift (creating k e) s (creating k e) (attach_found o r s)
unfolding phase attach_acquired
attach_found-Shift none r k e s = (λ h. tt, λ f. f, λ f i. i)
attach_found-Shift (some f) r k e s = (λ h. tt, λ g. g, λ g i. i)

delete_key-nil : (k : Text) (m : Keyed) → m ≡ [] → delete_key k m ≡ []
unfolding delete_key
delete_key-nil k m h = rw h refl

create_step-Shift :
    (c : Choice) (k : Text) (e : ℕ) (s : Store)
    → ShiftOf (creating k e) s (some (create_step c k e s))
unfolding create_step phase withdraw_instance
create_step-Shift go k e s = (λ h. tt, λ f. f, λ f i. i)
create_step-Shift (attach_own r) k e s = attach_found-Shift (some e) r k e s
create_step-Shift (attach_keyed r) k e s = attach_found-Shift (find_key k s.keys) r k e s
create_step-Shift (register i) k e s = register_step-Shift s.shutting_down k i e s refl
create_step-Shift (withdraw i) k e s = (λ h. tt, λ f. f, λ f j. delete_key-nil k s.instances j)
create_step-Shift (succeed p) k e s = (λ h. tt, λ f. f, λ f i. i)
create_step-Shift fail k e s = (λ h. tt, λ f. f, λ f i. i)

phase-after_take : (o i : Option ℕ) → phase (after_take o i) ≡ before_signal
unfolding phase
phase-after_take (some e) i = refl
phase-after_take none none = refl
phase-after_take none (some i) = refl

taking-Shift :
    (k : Text) (o : Option ℕ) (s : Store)
    → Shift
        (taking k o)
        s
        (after_take o (find_key k s.instances))
        (record s { instances = delete_key k s.instances })
taking-Shift k o s = (
  λ h. rw (phase-after_take o (find_key k s.instances)) tt,
  λ f. f,
  λ f i. delete_key-nil k s.instances i,
)

step-Shift : (c : Choice) (p : Pc) (s : Store) → ShiftOf p s (step c p s)
unfolding step slow_step phase remove_key close_done clear_instances release_all add_entry
step-Shift c (opening []) s = (λ h. tt, λ f. f, λ f i. i)
step-Shift c (opening (b ∷ k)) s = opening-Shift (find_key (b ∷ k) s.keys) (b ∷ k) s
step-Shift c (fast k e) s = opened_or-Shift (pool_of s e) (fast k e) (fast_wait k e) s refl
step-Shift c (fast_wait k e) s = when_done-Shift e (fast_wait k e) (fast_again k e) s refl
step-Shift c (fast_again k e) s = opened_or-Shift (pool_of s e) (fast_again k e) (slow k) s refl
step-Shift c (slow k) s = slow_found-Shift (find_key k s.keys) k s
step-Shift c (slow_wait k e) s = when_done-Shift e (slow_wait k e) (slow_again k e) s refl
step-Shift c (slow_again k e) s =
    opened_or-Shift (pool_of s e) (slow_again k e) (replacing k) s refl
step-Shift c (replacing k) s = (λ h. tt, λ f. f, λ f i. i)
step-Shift c (creating k e) s = create_step-Shift c k e s
step-Shift c (storing e p) s = (λ h. tt, λ f. f, λ f i. i)
step-Shift c (releasing k e) s = (λ h. tt, λ f. f, λ f i. i)
step-Shift c (dropping k e) s = (λ h. tt, λ f. f, λ f i. i)
step-Shift c (ending e r) s = (λ h. tt, λ f. f, λ f i. i)
step-Shift c (closing []) s = (λ h. tt, λ f. f, λ f i. i)
step-Shift c (closing (b ∷ k)) s = (λ h. tt, λ f. f, λ f i. i)
step-Shift c (taking k o) s = taking-Shift k o s
step-Shift c (close_wait e inst) s =
    when_done-Shift e (close_wait e inst) (close_pool e inst) s refl
step-Shift c (close_pool e inst) s =
    log_pool-Shift (pool_of s e) e (close_pool e inst) (close_release e inst) s refl
step-Shift c (close_release e inst) s = (λ h. tt, λ f. f, λ f i. i)
step-Shift c (close_stop inst) s = log_stop-Shift inst (close_stop inst) (returned closed) s refl
step-Shift c awaiting_signal s = (λ h. refl, λ f. refl, λ f i. i)
step-Shift c shut_entries s = (λ h. h, λ f. f, λ f i. i)
step-Shift c (shut_wait []) s = (λ h. h, λ f. f, λ f i. i)
step-Shift c (shut_wait (e ∷ es)) s = when_done-Shift e (shut_wait (e ∷ es)) (shut_pool e es) s refl
step-Shift c (shut_pool e es) s =
    log_pool-Shift (pool_of s e) e (shut_pool e es) (shut_release e es) s refl
step-Shift c (shut_release e es) s = (λ h. h, λ f. f, λ f i. i)
step-Shift c shut_instances s = (λ h. (h, refl), λ f. f, λ f i. refl)
step-Shift c (shut_stop []) s = (λ h. h, λ f. f, λ f i. i)
step-Shift c (shut_stop (i ∷ is)) s = (λ h. h, λ f. f, λ f i. i)
step-Shift c shut_stragglers s = (λ h. (h.0, refl), λ f. f, λ f i. refl)
step-Shift c (shut_last []) s = (λ h. tt, λ f. f, λ f i. i)
step-Shift c (shut_last (i ∷ is)) s = (λ h. h, λ f. f, λ f i. i)
step-Shift c (returned r) s = tt

-- The phase of every goroutine says the truth.
abbrev IsPromised : World → Type 0
IsPromised w = (t : ℕ) → Promise (phase (w.threads t)) w.store

after-IsPromised :
    (w : World) (c : Choice) (t : ℕ) (pc : Pc) (s : Store)
    → step c (w.threads t) w.store ≡ some (pc, s)
    → IsPromised w
    → IsPromised (after t pc s w)
after-IsPromised w c t pc s e inv u =
    let p = w.threads t in
    let shift : Shift p w.store pc s = subst (ShiftOf p w.store) e (step-Shift c p w.store) in
    elim (Bool-cases (u == t)) [
      | inl b ↦ rw b (shift.0 (inv t))
      | inr b ↦ rw b (Promise-kept (phase (w.threads u)) w.store s shift.1 shift.2 (inv u))
    ]

initial-phase : (p : Pc) → IsInitial p → phase p ≡ before_signal
unfolding phase
initial-phase p (opens k) = refl
initial-phase p (closes k) = refl
initial-phase p awaits = refl

Reached-IsPromised : (w : World) → Reached w → IsPromised w
Reached-IsPromised w (begin threads h) = λ t. rw (initial-phase (threads t) (h t)) tt
Reached-IsPromised w (moved {w = v} c t pc s r e) =
    after-IsPromised v c t pc s e (Reached-IsPromised v r)

-- When the shutdown looks for stragglers it finds none, whatever other goroutines do: a server is
-- registered only before the shutdown has begun.
pub no_stragglers :
    (w : World) (t : ℕ)
    → Reached w
    → w.threads t ≡ shut_stragglers
    → (w.store.shutting_down ≡ true) × (w.store.instances ≡ [])
unfolding phase
no_stragglers w t r h = subst (λ p. Promise (phase p) w.store) h (Reached-IsPromised w r t)
