-- ===== src/Pool/Registry/Alone.antt =====
-- The registry used by one goroutine after the other, and the map from keys to pools that it is.
pub mod Open
pub mod Close
pub mod Spec
use orcacommon.Common.{
  ℕ, zero, suc, ◌<◌, ◌≡◌, ◌≢◌, refl, sym, ap, ◌∙◌, ◌==◌, ==_iff, if◌then◌else◌, Bool, true, false,
  Option, none, some, List, [], ◌∷◌, ◌++◌, arith, Bool-cases, Option-cases, inl, inr, ◌⊎◌,
}
use orcacommon.Common.Text.{Text, text_eq}
use orcacommon.Common.Text.Laws.{text_eq_iff, text_eq_refl, text_eq_sound}
use orcacommon.Pool.Registry.{
  Entry, Store, Keyed, find_key, delete_key, put_key, set_entry, set_pool, pool_of, is_done_of,
  release_all, add_entry, remove_key, close_done, log_pool, log_stop,
}
use orcacommon.Pool.Registry.Threads.{
  Result, Pc, opening, fast, fast_wait, slow, creating, storing, releasing, dropping, ending,
  closing, taking, close_wait, close_pool, close_release, close_stop, returned, opened, open_failed,
  closed, Choice, go, succeed, fail, create_step, when_done, slow_step, after_take, step,
}

-- One goroutine alone, up to a number of steps.
unfoldable pub solo : ℕ → Choice → Pc → Store → Pc × Store
solo zero c p s = (p, s)
solo (suc n) c p s = elim (step c p s) [ none ↦ (p, s) | some (q, t) ↦ solo n c q t ]

pub solo-next :
    (n : ℕ) (c : Choice) (p q : Pc) (s t : Store)
    → step c p s ≡ some (q, t)
    → solo (suc n) c p s ≡ solo n c q t
unfolding solo
solo-next n c p q s t h = rw (solo, h) refl

-- The pool under a key.
unfoldable pub view : Store → Text → Option ℕ
view s k = elim (find_key k s.keys) [ none ↦ none | some e ↦ pool_of s e ]

-- Between the operations: the entries under the keys are distinct, done, and have a pool.
pub record IsQuiet (s : Store) : Type 0 where
  pub is_made : (k : Text) (e : ℕ) → find_key k s.keys ≡ some e → e < s.next
  pub is_done : (k : Text) (e : ℕ) → find_key k s.keys ≡ some e → is_done_of s e ≡ true
  pub has_pool : (k : Text) (e : ℕ) → find_key k s.keys ≡ some e → pool_of s e ≢ none
  pub unique :
      (j k : Text) (e : ℕ) → find_key j s.keys ≡ some e → find_key k s.keys ≡ some e → j ≡ k

pub find_key-delete_key :
    (j k : Text) (m : Keyed)
    → find_key j (delete_key k m) ≡ (if text_eq k j then none else find_key j m)
unfolding find_key delete_key
find_key-delete_key j k [] = ground arith
find_key-delete_key j k ((i, e) ∷ m) =
    ground (arith, find_key-delete_key j k m, text_eq_iff i k, text_eq_iff i j, text_eq_iff k j)

pub find_key-put_key :
    (j k : Text) (e : ℕ) (m : Keyed)
    → find_key j (put_key k e m) ≡ (if text_eq k j then some e else find_key j m)
unfolding find_key
find_key-put_key j k e m = ground (arith, find_key-delete_key j k m)

pub view-known :
    (s : Store) (k : Text) (e : ℕ) → find_key k s.keys ≡ some e → view s k ≡ pool_of s e
unfolding view
view-known s k e h = rw (view, h) refl

pub view-unknown : (s : Store) (k : Text) → find_key k s.keys ≡ none → view s k ≡ none
unfolding view
view-unknown s k h = rw (view, h) refl

pub solo-returned :
    (n : ℕ) (c : Choice) (r : Result) (s : Store) → solo n c (returned r) s ≡ (returned r, s)
unfolding solo step
solo-returned zero c r s = refl
solo-returned (suc n) c r s = refl

-- What `IsQuiet` and the view need to know of a new store: the keys, with one changed, and the
-- entries that there were.
pub record Keeps (s t : Store) : Type 0 where
  pub same_pool : (e : ℕ) → e < s.next → pool_of t e ≡ pool_of s e
  pub same_done : (e : ℕ) → e < s.next → is_done_of t e ≡ is_done_of s e
  pub more : s.next < suc t.next

-- Where a key has the same entry, it has the same pool.
pub view-kept :
    (s t : Store) (j : Text)
    → IsQuiet s
    → Keeps s t
    → find_key j t.keys ≡ find_key j s.keys
    → view t j ≡ view s j
view-kept s t j q k h = elim (Option-cases (find_key j s.keys)) [
  | inl e ↦ view-unknown t j (h ∙ e) ∙ sym (view-unknown s j e)
  | inr (e, l) ↦
      view-known t j e (h ∙ l) ∙ (k.same_pool e (q.is_made j e l) ∙ sym (view-known s j e l))
]
