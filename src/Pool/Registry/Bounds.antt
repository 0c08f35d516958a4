-- ===== src/Pool/Registry/Bounds.antt =====
-- The entries that goroutines and the registry point to have been made.
use orcacommon.Common.{
  ℕ, suc, ◌<◌, ◌≡◌, refl, Bool, true, false, Option, none, some, List, [], ◌∷◌, All, arith,
  Bool-cases, inl, inr,
}
use orcacommon.Common.Text.{Text, text_eq}
use orcacommon.Pool.Registry.{
  Store, Keyed, find_key, delete_key, put_key, set_pool, pool_of, is_done_of, attach_acquired,
  release_all, add_entry, remove_key, close_done, log_pool, log_stop, register_instance,
  withdraw_instance, clear_instances, values,
}
use orcacommon.Pool.Registry.Threads.{
  Pc, opening, fast, fast_wait, fast_again, slow, slow_wait, slow_again, replacing, creating,
  storing, releasing, dropping, ending, closing, taking, close_wait, close_pool, close_release,
  close_stop, awaiting_signal, shut_entries, shut_wait, shut_pool, shut_release, shut_instances,
  shut_stop, shut_stragglers, shut_last, returned, closed, Choice, go, attach_own, attach_keyed,
  withdraw, register, succeed, fail, attach_found, register_step, slow_found, opened_or,
  create_step, when_done, slow_step, after_take, step,
}

abbrev pub of_option : Option ℕ → List ℕ
of_option none = []
of_option (some e) = e ∷ []

-- The entries that a goroutine points to.
unfoldable pub mentions : Pc → List ℕ
mentions (fast k e) = e ∷ []
mentions (fast_wait k e) = e ∷ []
mentions (fast_again k e) = e ∷ []
mentions (slow_wait k e) = e ∷ []
mentions (slow_again k e) = e ∷ []
mentions (creating k e) = e ∷ []
mentions (storing e p) = e ∷ []
mentions (releasing k e) = e ∷ []
mentions (dropping k e) = e ∷ []
mentions (ending e r) = e ∷ []
mentions (taking k o) = of_option o
mentions (close_wait e inst) = e ∷ []
mentions (close_pool e inst) = e ∷ []
mentions (close_release e inst) = e ∷ []
mentions (shut_wait es) = es
mentions (shut_pool e es) = e ∷ es
mentions (shut_release e es) = e ∷ es
mentions _ = []

abbrev pub Below : ℕ → List ℕ → Type 0
Below n es = All (λ e. e < n) es

pub Below-suc : (n : ℕ) (es : List ℕ) → Below n es → Below (suc n) es
Below-suc n [] h = tt
Below-suc n (e ∷ es) h = (omega arith, Below-suc n es h.1)

Below-find_key :
    (n : ℕ) (k : Text) (m : Keyed) → Below n (values m) → Below n (of_option (find_key k m))
unfolding find_key
Below-find_key n k [] h = tt
Below-find_key n k ((j, e) ∷ m) h = elim (Bool-cases (text_eq j k)) [
  | inl b ↦ rw b (h.0, tt)
  | inr b ↦ rw b (Below-find_key n k m h.1)
]

Below-delete_key :
    (n : ℕ) (k : Text) (m : Keyed) → Below n (values m) → Below n (values (delete_key k m))
unfolding delete_key
Below-delete_key n k [] h = tt
Below-delete_key n k ((j, e) ∷ m) h = elim (Bool-cases (text_eq j k)) [
  | inl b ↦ rw b (Below-delete_key n k m h.1)
  | inr b ↦ rw b (h.0, Below-delete_key n k m h.1)
]

-- What a step leads to points to entries that were made.
abbrev pub BoundedBy : Option (Pc × Store) → Type 0
BoundedBy none = Unit
BoundedBy (some (q, t)) = Below t.next (mentions q) × Below t.next (values t.keys)

opened_or-BoundedBy :
    (o : Option ℕ) (q : Pc) (s : Store)
    → Below s.next (mentions q)
    → Below s.next (values s.keys)
    → BoundedBy (some (opened_or o q, s))
unfolding mentions
opened_or-BoundedBy none q s h k = (h, k)
opened_or-BoundedBy (some p) q s h k = (tt, k)

when_done-BoundedBy :
    (e : ℕ) (q : Pc) (s : Store)
    → Below s.next (mentions q)
    → Below s.next (values s.keys)
    → BoundedBy (when_done e q s)
when_done-BoundedBy e q s h k = elim (Bool-cases (is_done_of s e)) [
  | inl d ↦ rw d (h, k)
  | inr d ↦ rw d tt
]

add_entry-BoundedBy :
    (k : Text) (s : Store)
    → Below s.next (values s.keys)
    → BoundedBy (some (creating k s.next, add_entry k s))
unfolding mentions add_entry
add_entry-BoundedBy k s h = (
  (omega arith, tt),
  (
    omega arith,
    Below-suc s.next (values (delete_key k s.keys)) (Below-delete_key s.next k s.keys h),
  ),
)

-- A step that leaves the map and the number of entries.
abbrev SameKeys : Store → Store → Type 0
SameKeys s t = (t.next ≡ s.next) × (t.keys ≡ s.keys)

same_keys-BoundedBy :
    (q : Pc) (s t : Store)
    → t.next ≡ s.next
    → t.keys ≡ s.keys
    → Below s.next (mentions q)
    → Below s.next (values s.keys)
    → BoundedBy (some (q, t))
same_keys-BoundedBy q s t n m h k = rw (n, m) (h, k)

keyed-SameKeys : (o : Option ℕ) (r : ℕ) (s : Store) → SameKeys s (attach_found o r s)
unfolding attach_acquired
keyed-SameKeys none r s = (refl, refl)
keyed-SameKeys (some f) r s = (refl, refl)

log_stop-SameKeys : (o : Option ℕ) (s : Store) → SameKeys s (log_stop o s)
log_stop-SameKeys none s = (refl, refl)
log_stop-SameKeys (some i) s = (refl, refl)

register-SameKeys : (k : Text) (i : ℕ) (s : Store) → SameKeys s (register_instance k i s)
unfolding register_instance
register-SameKeys k i s =
    log_stop-SameKeys (find_key k s.instances) (record s { instances = put_key k i s.instances })

log_pool-SameKeys : (o : Option ℕ) (e : ℕ) (s : Store) → SameKeys s (log_pool o (set_pool e none s))
log_pool-SameKeys none e s = (refl, refl)
log_pool-SameKeys (some p) e s = (refl, refl)

register_step-BoundedBy :
    (b : Bool) (k : Text) (i e : ℕ) (s : Store)
    → Below s.next (e ∷ [])
    → Below s.next (values s.keys)
    → BoundedBy (some (register_step b k i e s))
unfolding mentions
register_step-BoundedBy true k i e s h m = (h, m)
register_step-BoundedBy false k i e s h m =
    let same = register-SameKeys k i s in
    same_keys-BoundedBy (creating k e) s (register_instance k i s) same.0 same.1 h m

create_step-BoundedBy :
    (c : Choice) (k : Text) (e : ℕ) (s : Store)
    → Below s.next (e ∷ [])
    → Below s.next (values s.keys)
    → BoundedBy (some (create_step c k e s))
unfolding create_step mentions attach_acquired withdraw_instance
create_step-BoundedBy go k e s h m = (h, m)
create_step-BoundedBy (attach_own r) k e s h m = (h, m)
create_step-BoundedBy (attach_keyed r) k e s h m =
    let same = keyed-SameKeys (find_key k s.keys) r s in
    same_keys-BoundedBy (creating k e) s (attach_found (find_key k s.keys) r s) same.0 same.1 h m
create_step-BoundedBy (register i) k e s h m = register_step-BoundedBy s.shutting_down k i e s h m
create_step-BoundedBy (withdraw i) k e s h m = (h, m)
create_step-BoundedBy (succeed p) k e s h m = (h, m)
create_step-BoundedBy fail k e s h m = (h, m)

slow_found-BoundedBy :
    (o : Option ℕ) (k : Text) (s : Store)
    → Below s.next (of_option o)
    → Below s.next (values s.keys)
    → BoundedBy (some (slow_found o k s))
unfolding mentions
slow_found-BoundedBy none k s h m = add_entry-BoundedBy k s m
slow_found-BoundedBy (some e) k s h m = opened_or-BoundedBy (pool_of s e) (slow_wait k e) s h m

opening-BoundedBy :
    (o : Option ℕ) (k : Text) (s : Store)
    → Below s.next (of_option o)
    → Below s.next (values s.keys)
    → BoundedBy (elim o [ none ↦ some (slow k, s) | some e ↦ some (fast k e, s) ])
unfolding mentions
opening-BoundedBy none k s h m = (tt, m)
opening-BoundedBy (some e) k s h m = (h, m)

Below-after_take :
    (n : ℕ) (o i : Option ℕ) → Below n (of_option o) → Below n (mentions (after_take o i))
unfolding mentions
Below-after_take n none none h = tt
Below-after_take n none (some i) h = tt
Below-after_take n (some e) i h = h

pub step-BoundedBy :
    (c : Choice) (p : Pc) (s : Store)
    → Below s.next (mentions p)
    → Below s.next (values s.keys)
    → BoundedBy (step c p s)
unfolding step slow_step mentions remove_key close_done clear_instances release_all
step-BoundedBy c (opening []) s h m = (tt, m)
step-BoundedBy c (opening (b ∷ k)) s h m =
    opening-BoundedBy (find_key (b ∷ k) s.keys) (b ∷ k) s (Below-find_key s.next (b ∷ k) s.keys m) m
step-BoundedBy c (fast k e) s h m = opened_or-BoundedBy (pool_of s e) (fast_wait k e) s h m
step-BoundedBy c (fast_wait k e) s h m = when_done-BoundedBy e (fast_again k e) s h m
step-BoundedBy c (fast_again k e) s h m = opened_or-BoundedBy (pool_of s e) (slow k) s tt m
step-BoundedBy c (slow k) s h m =
    slow_found-BoundedBy (find_key k s.keys) k s (Below-find_key s.next k s.keys m) m
step-BoundedBy c (slow_wait k e) s h m = when_done-BoundedBy e (slow_again k e) s h m
step-BoundedBy c (slow_again k e) s h m = opened_or-BoundedBy (pool_of s e) (replacing k) s tt m
step-BoundedBy c (replacing k) s h m = add_entry-BoundedBy k s m
step-BoundedBy c (creating k e) s h m = create_step-BoundedBy c k e s h m
step-BoundedBy c (storing e p) s h m = (h, m)
step-BoundedBy c (releasing k e) s h m = (h, m)
step-BoundedBy c (dropping k e) s h m = (h, Below-delete_key s.next k s.keys m)
step-BoundedBy c (ending e r) s h m = (tt, m)
step-BoundedBy c (closing []) s h m = (tt, m)
step-BoundedBy c (closing (b ∷ k)) s h m =
    (Below-find_key s.next (b ∷ k) s.keys m, Below-delete_key s.next (b ∷ k) s.keys m)
step-BoundedBy c (taking k o) s h m = (Below-after_take s.next o (find_key k s.instances) h, m)
step-BoundedBy c (close_wait e inst) s h m = when_done-BoundedBy e (close_pool e inst) s h m
step-BoundedBy c (close_pool e inst) s h m =
    let same = log_pool-SameKeys (pool_of s e) e s in
    same_keys-BoundedBy (close_release e inst) s (log_pool (pool_of s e) (set_pool e none s)) same.0
      same.1 h m
step-BoundedBy c (close_release e inst) s h m = (tt, m)
step-BoundedBy c (close_stop inst) s h m =
    let same = log_stop-SameKeys inst s in
    same_keys-BoundedBy (returned closed) s (log_stop inst s) same.0 same.1 tt m
step-BoundedBy c awaiting_signal s h m = (tt, m)
step-BoundedBy c shut_entries s h m = (m, tt)
step-BoundedBy c (shut_wait []) s h m = (tt, m)
step-BoundedBy c (shut_wait (e ∷ es)) s h m = when_done-BoundedBy e (shut_pool e es) s h m
step-BoundedBy c (shut_pool e es) s h m =
    let same = log_pool-SameKeys (pool_of s e) e s in
    same_keys-BoundedBy (shut_release e es) s (log_pool (pool_of s e) (set_pool e none s)) same.0
      same.1 h m
step-BoundedBy c (shut_release e es) s h m = (h.1, m)
step-BoundedBy c shut_instances s h m = (tt, m)
step-BoundedBy c (shut_stop []) s h m = (tt, m)
step-BoundedBy c (shut_stop (i ∷ is)) s h m = (tt, m)
step-BoundedBy c shut_stragglers s h m = (tt, m)
step-BoundedBy c (shut_last []) s h m = (tt, m)
step-BoundedBy c (shut_last (i ∷ is)) s h m = (tt, m)
step-BoundedBy c (returned r) s h m = tt
