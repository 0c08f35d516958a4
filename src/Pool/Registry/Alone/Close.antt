-- ===== src/Pool/Registry/Alone/Close.antt =====
-- Closing a pool alone.
use orcacommon.Common.{
  ℕ, suc, ◌≡◌, refl, sym, ◌∙◌, if◌then◌else◌, true, false, Option, none, some, ◌∷◌, arith,
  Bool-cases, Option-cases, inl, inr,
}
use orcacommon.Common.Text.{Text, text_eq}
use orcacommon.Common.Text.Laws.{text_eq_iff}
use orcacommon.Pool.Registry.{
  Store, find_key, delete_key, set_pool, pool_of, is_done_of, release_all, remove_key, log_pool,
  log_stop,
}
use orcacommon.Pool.Registry.Threads.{
  closing, taking, close_wait, close_pool, close_release, returned, closed, go, after_take, step,
}
use orcacommon.Pool.Registry.Alone.{
  solo, solo-next, solo-returned, view, view-known, view-unknown, IsQuiet, find_key-delete_key,
}

-- The store after both maps were read.
abbrev pub taken : Text → Store → Store
taken k s = record (remove_key k s) { instances = delete_key k (remove_key k s).instances }

-- The store after the pool was closed and the server stopped.
abbrev pub closed_store : Text → ℕ → ℕ → Store → Store
closed_store k e p s =
    log_stop (find_key k s.instances)
      (release_all e (log_pool (some p) (set_pool e none (taken k s))))

closing-known :
    (b : ℕ) (k : Text) (s : Store) (e : ℕ)
    → find_key (b ∷ k) s.keys ≡ some e
    → step go (closing (b ∷ k)) s ≡ some (taking (b ∷ k) (some e), remove_key (b ∷ k) s)
unfolding step
closing-known b k s e h = rw (step, h) refl

close_wait-done :
    (e : ℕ) (inst : Option ℕ) (s : Store)
    → is_done_of s e ≡ true
    → step go (close_wait e inst) s ≡ some (close_pool e inst, s)
unfolding step
close_wait-done e inst s h = rw (step, h) refl

close_pool-some :
    (e p : ℕ) (inst : Option ℕ) (s : Store)
    → pool_of s e ≡ some p
    → step go (close_pool e inst) s
      ≡ some (close_release e inst, log_pool (some p) (set_pool e none s))
unfolding step
close_pool-some e p inst s h = rw (step, h) refl

pub close_known :
    (b : ℕ) (k : Text) (s : Store) (e p : ℕ)
    → find_key (b ∷ k) s.keys ≡ some e
    → is_done_of s e ≡ true
    → pool_of s e ≡ some p
    → solo 8 go (closing (b ∷ k)) s ≡ (returned closed, closed_store (b ∷ k) e p s)
unfolding solo step remove_key
close_known b k s e p h d q =
    let inst = find_key (b ∷ k) s.instances in
    let t = taken (b ∷ k) s in
    solo-next 7 go (closing (b ∷ k)) (taking (b ∷ k) (some e)) s (remove_key (b ∷ k) s)
      (closing-known b k s e h)
    ∙ (solo-next 5 go (close_wait e inst) (close_pool e inst) t t (close_wait-done e inst t d)
        ∙ solo-next 4 go (close_pool e inst) (close_release e inst) t
            (log_pool (some p) (set_pool e none t)) (close_pool-some e p inst t q))

taking-unknown :
    (k : Text) (o : Option ℕ) (n : ℕ) (s : Store)
    → solo (suc (suc n)) go (after_take none o) s ≡ (returned closed, log_stop o s)
unfolding solo step
taking-unknown k none n s = solo-returned (suc (suc n)) go closed s
taking-unknown k (some i) n s = solo-returned (suc n) go closed (log_stop (some i) s)

pub close_unknown :
    (b : ℕ) (k : Text) (s : Store)
    → find_key (b ∷ k) s.keys ≡ none
    → solo 8 go (closing (b ∷ k)) s
      ≡ (returned closed, log_stop (find_key (b ∷ k) s.instances) (taken (b ∷ k) s))
unfolding step remove_key
close_unknown b k s h =
    solo-next 7 go (closing (b ∷ k)) (taking (b ∷ k) none) s (remove_key (b ∷ k) s)
      (rw (step, h) refl)
    ∙ (solo-next 6 go (taking (b ∷ k) none) (after_take none (find_key (b ∷ k) s.instances))
          (remove_key (b ∷ k) s) (taken (b ∷ k) s) refl
        ∙ taking-unknown (b ∷ k) (find_key (b ∷ k) s.instances) 4 (taken (b ∷ k) s))

-- The key is gone, and the other keys have what they had.
pub record Removes (k : Text) (s t : Store) : Type 0 where
  pub keys_without :
      (j : Text) → find_key j t.keys ≡ (if text_eq k j then none else find_key j s.keys)
  pub same_pool :
      (j : Text) (f : ℕ)
      → find_key j s.keys ≡ some f
      → text_eq k j ≡ false
      → pool_of t f ≡ pool_of s f
  pub same_done : (f : ℕ) → is_done_of t f ≡ is_done_of s f
  pub same_next : t.next ≡ s.next

pub Removes-view :
    (k j : Text) (s t : Store) → Removes k s t → view t j ≡ (if text_eq k j then none else view s j)
Removes-view k j s t r = elim (Bool-cases (text_eq k j)) [
  | inl e ↦ rw e (view-unknown t j (r.keys_without j ∙ rw e refl))
  | inr e ↦ elim (Option-cases (find_key j s.keys)) [
    | inl h ↦ rw e (view-unknown t j (r.keys_without j ∙ rw e h) ∙ sym (view-unknown s j h))
    | inr (f, h) ↦ rw e (
        view-known t j f (r.keys_without j ∙ rw e h)
        ∙ (r.same_pool j f h e ∙ sym (view-known s j f h)))
  ]
]

pub Removes-IsQuiet : (k : Text) (s t : Store) → Removes k s t → IsQuiet s → IsQuiet t
Removes-IsQuiet k s t r q = record {
  is_made = λ j e h. ground (arith, r.keys_without j, r.same_next, q.is_made j e);
  is_done = λ j e h. ground (arith, r.keys_without j, r.same_done e, q.is_done j e);
  has_pool = λ j e h. ground (arith, r.keys_without j, r.same_pool j e, q.has_pool j e);
  unique = λ i j e h l. ground (arith, r.keys_without i, r.keys_without j, q.unique i j e);
}

Removes-log_stop :
    (k : Text) (o : Option ℕ) (s t : Store) → Removes k s t → Removes k s (log_stop o t)
Removes-log_stop k none s t r = r
Removes-log_stop k (some i) s t r = record {
  keys_without = λ j. r.keys_without j;
  same_pool = λ j f h e. r.same_pool j f h e;
  same_done = λ f. r.same_done f;
  same_next = r.same_next;
}

Removes-taken : (k : Text) (s : Store) → Removes k s (taken k s)
unfolding remove_key
Removes-taken k s = record {
  keys_without = λ j. find_key-delete_key j k s.keys;
  same_pool = λ j f h e. refl;
  same_done = λ f. refl;
  same_next = refl;
}

Removes-pool :
    (k : Text) (e p : ℕ) (s : Store)
    → IsQuiet s
    → find_key k s.keys ≡ some e
    → Removes k s (release_all e (log_pool (some p) (set_pool e none (taken k s))))
unfolding remove_key release_all
Removes-pool k e p s q h = record {
  keys_without = λ j. find_key-delete_key j k s.keys;
  same_pool = λ j f l ne. ground (arith, text_eq_iff k j, q.unique k j e);
  same_done = λ f. ground arith;
  same_next = refl;
}

-- The store after a key that has a pool was closed, and after one that has none.
pub close_known-Removes :
    (b : ℕ) (k : Text) (s : Store) (e p : ℕ)
    → IsQuiet s
    → find_key (b ∷ k) s.keys ≡ some e
    → Removes (b ∷ k) s (closed_store (b ∷ k) e p s)
close_known-Removes b k s e p q h =
    Removes-log_stop (b ∷ k) (find_key (b ∷ k) s.instances) s
      (release_all e (log_pool (some p) (set_pool e none (taken (b ∷ k) s))))
      (Removes-pool (b ∷ k) e p s q h)

pub close_unknown-Removes :
    (b : ℕ) (k : Text) (s : Store)
    → Removes (b ∷ k) s (log_stop (find_key (b ∷ k) s.instances) (taken (b ∷ k) s))
close_unknown-Removes b k s =
    Removes-log_stop (b ∷ k) (find_key (b ∷ k) s.instances) s (taken (b ∷ k) s)
      (Removes-taken (b ∷ k) s)
