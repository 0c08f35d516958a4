-- ===== src/Pool/Registry/Alone/Open.antt =====
-- Opening a pool alone: it is there already, it is created, or its creation fails.
use orcacommon.Common.{
  ℕ, suc, ◌≡◌, refl, sym, ap, ◌∙◌, ◌==◌, if◌then◌else◌, true, none, some, ◌∷◌, arith, Bool-cases,
  inl, inr,
}
use orcacommon.Common.Text.{Text, text_eq}
use orcacommon.Common.Text.Laws.{text_eq_iff, text_eq_sound}
use orcacommon.Pool.Registry.{
  Store, find_key, put_key, set_pool, pool_of, is_done_of, release_all, add_entry, remove_key,
  close_done,
}
use orcacommon.Pool.Registry.Threads.{
  opening, fast, slow, creating, returned, opened, open_failed, Choice, succeed, fail, create_step,
  slow_step, step,
}
use orcacommon.Pool.Registry.Alone.{
  solo, solo-next, solo-returned, view, view-known, IsQuiet, find_key-delete_key, find_key-put_key,
  Keeps, view-kept,
}

-- The first step of `resolvePool`.
opening-known :
    (c : Choice) (b : ℕ) (k : Text) (s : Store) (e : ℕ)
    → find_key (b ∷ k) s.keys ≡ some e
    → step c (opening (b ∷ k)) s ≡ some (fast (b ∷ k) e, s)
unfolding step
opening-known c b k s e h = rw (step, h) refl

opening-unknown :
    (c : Choice) (b : ℕ) (k : Text) (s : Store)
    → find_key (b ∷ k) s.keys ≡ none
    → step c (opening (b ∷ k)) s ≡ some (slow (b ∷ k), s)
unfolding step
opening-unknown c b k s h = rw (step, h) refl

fast-pool :
    (c : Choice) (k : Text) (e p : ℕ) (s : Store)
    → pool_of s e ≡ some p
    → step c (fast k e) s ≡ some (returned (opened p), s)
unfolding step
fast-pool c k e p s h = rw (step, h) refl

slow-unknown :
    (c : Choice) (k : Text) (s : Store)
    → find_key k s.keys ≡ none
    → step c (slow k) s ≡ some (creating k s.next, add_entry k s)
unfolding step slow_step
slow-unknown c k s h = rw (step, slow_step, h) refl

-- A key that has a pool: it is returned, and nothing changes.
pub open_known :
    (c : Choice) (b : ℕ) (k : Text) (s : Store) (e p : ℕ)
    → find_key (b ∷ k) s.keys ≡ some e
    → pool_of s e ≡ some p
    → solo 8 c (opening (b ∷ k)) s ≡ (returned (opened p), s)
open_known c b k s e p h q =
    solo-next 7 c (opening (b ∷ k)) (fast (b ∷ k) e) s s (opening-known c b k s e h)
    ∙ (solo-next 6 c (fast (b ∷ k) e) (returned (opened p)) s s (fast-pool c (b ∷ k) e p s q)
        ∙ solo-returned 6 c (opened p) s)

-- The store after a pool was created under a new key.
abbrev pub created : Text → ℕ → Store → Store
created k p s = close_done s.next (set_pool s.next (some p) (add_entry k s))

pub open_new :
    (b : ℕ) (k : Text) (s : Store) (p : ℕ)
    → find_key (b ∷ k) s.keys ≡ none
    → solo 8 (succeed p) (opening (b ∷ k)) s ≡ (returned (opened p), created (b ∷ k) p s)
unfolding solo step create_step
open_new b k s p h =
    solo-next 7 (succeed p) (opening (b ∷ k)) (slow (b ∷ k)) s s
      (opening-unknown (succeed p) b k s h)
    ∙ solo-next 6 (succeed p) (slow (b ∷ k)) (creating (b ∷ k) s.next) s (add_entry (b ∷ k) s)
        (slow-unknown (succeed p) (b ∷ k) s h)

-- The store after a creation that failed.
abbrev pub given_up : Text → Store → Store
given_up k s = close_done s.next (remove_key k (release_all s.next (add_entry k s)))

pub open_failing :
    (b : ℕ) (k : Text) (s : Store)
    → find_key (b ∷ k) s.keys ≡ none
    → solo 8 fail (opening (b ∷ k)) s ≡ (returned open_failed, given_up (b ∷ k) s)
unfolding solo step create_step
open_failing b k s h =
    solo-next 7 fail (opening (b ∷ k)) (slow (b ∷ k)) s s (opening-unknown fail b k s h)
    ∙ solo-next 6 fail (slow (b ∷ k)) (creating (b ∷ k) s.next) s (add_entry (b ∷ k) s)
        (slow-unknown fail (b ∷ k) s h)

-- What the registry holds afterwards.
keys-created :
    (j k : Text) (p : ℕ) (s : Store)
    → find_key j (created k p s).keys ≡ (if text_eq k j then some s.next else find_key j s.keys)
unfolding close_done add_entry
keys-created j k p s = find_key-put_key j k s.next s.keys

pub keys-given_up :
    (j k : Text) (s : Store)
    → find_key k s.keys ≡ none
    → find_key j (given_up k s).keys ≡ find_key j s.keys
unfolding close_done remove_key release_all add_entry
keys-given_up j k s h = elim (Bool-cases (text_eq k j)) [
  | inl e ↦
      find_key-delete_key j k (put_key k s.next s.keys)
      ∙ rw e (sym (ap (λ t. find_key t s.keys) (sym (text_eq_sound k j e)) ∙ h))
  | inr e ↦
      find_key-delete_key j k (put_key k s.next s.keys)
      ∙ rw e (find_key-put_key j k s.next s.keys ∙ rw e refl)
]

pool-created :
    (k : Text) (p e : ℕ) (s : Store)
    → pool_of (created k p s) e ≡ (if e == s.next then some p else pool_of s e)
unfolding close_done add_entry
pool-created k p e s = ground arith

done-created :
    (k : Text) (p e : ℕ) (s : Store)
    → is_done_of (created k p s) e ≡ (if e == s.next then true else is_done_of s e)
unfolding close_done add_entry
done-created k p e s = ground arith

next-created : (k : Text) (p : ℕ) (s : Store) → (created k p s).next ≡ suc s.next
unfolding close_done add_entry
next-created k p s = refl

pool-given_up :
    (k : Text) (e : ℕ) (s : Store)
    → pool_of (given_up k s) e ≡ (if e == s.next then none else pool_of s e)
unfolding close_done remove_key release_all add_entry
pool-given_up k e s = ground arith

done-given_up :
    (k : Text) (e : ℕ) (s : Store)
    → is_done_of (given_up k s) e ≡ (if e == s.next then true else is_done_of s e)
unfolding close_done remove_key release_all add_entry
done-given_up k e s = ground arith

next-given_up : (k : Text) (s : Store) → (given_up k s).next ≡ suc s.next
unfolding close_done remove_key release_all add_entry
next-given_up k s = refl

pub created-Keeps : (k : Text) (p : ℕ) (s : Store) → Keeps s (created k p s)
created-Keeps k p s = record {
  same_pool = λ e l. ground (arith, pool-created k p e s);
  same_done = λ e l. ground (arith, done-created k p e s);
  more = omega (arith, next-created k p s);
}

pub given_up-Keeps : (k : Text) (s : Store) → Keeps s (given_up k s)
given_up-Keeps k s = record {
  same_pool = λ e l. ground (arith, pool-given_up k e s);
  same_done = λ e l. ground (arith, done-given_up k e s);
  more = omega (arith, next-given_up k s);
}

pub view-created :
    (k j : Text) (p : ℕ) (s : Store)
    → IsQuiet s
    → view (created k p s) j ≡ (if text_eq k j then some p else view s j)
view-created k j p s q = elim (Bool-cases (text_eq k j)) [
  | inl e ↦ rw e (
      view-known (created k p s) j s.next (keys-created j k p s ∙ rw e refl)
      ∙ ground (arith, pool-created k p s.next s))
  | inr e ↦
      rw e
        (view-kept s (created k p s) j q (created-Keeps k p s) (keys-created j k p s ∙ rw e refl))
]

pub created-IsQuiet : (k : Text) (p : ℕ) (s : Store) → IsQuiet s → IsQuiet (created k p s)
created-IsQuiet k p s q = record {
  is_made = λ j e h. ground (arith, keys-created j k p s, next-created k p s, q.is_made j e);
  is_done = λ j e h. ground (arith, keys-created j k p s, done-created k p e s, q.is_done j e);
  has_pool = λ j e h. ground (arith, keys-created j k p s, pool-created k p e s, q.has_pool j e);
  unique = λ i j e h l. ground (
    arith,
    keys-created i k p s,
    keys-created j k p s,
    text_eq_iff k i,
    text_eq_iff k j,
    q.is_made i e,
    q.is_made j e,
    q.unique i j e,
  );
}

pub given_up-IsQuiet :
    (k : Text) (s : Store) → find_key k s.keys ≡ none → IsQuiet s → IsQuiet (given_up k s)
given_up-IsQuiet k s n q = record {
  is_made = λ j e h. ground (arith, keys-given_up j k s n, next-given_up k s, q.is_made j e);
  is_done = λ j e h. ground (arith, keys-given_up j k s n, done-given_up k e s, q.is_done j e);
  has_pool = λ j e h.
      let old = sym (keys-given_up j k s n) ∙ h in
      λ none_there. q.has_pool j e old (
        sym (view-known s j e old)
        ∙ (sym (view-kept s (given_up k s) j q (given_up-Keeps k s) (keys-given_up j k s n))
            ∙ (view-known (given_up k s) j e h ∙ none_there)));
  unique = λ i j e h l.
      q.unique i j e (sym (keys-given_up i k s n) ∙ h) (sym (keys-given_up j k s n) ∙ l);
}
