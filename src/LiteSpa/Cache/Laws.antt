-- ===== src/LiteSpa/Cache/Laws.antt =====
-- A cache stays within its capacity and holds nothing but what was put.
use orcacommon.Common.{
  ℕ, zero, suc, ◌+◌, ◌%◌, ◌≤◌, ◌<◌, ◌≡◌, refl, leb, if◌then◌else◌, none, some, [], ◌∷◌, length,
  get_elem?, arith, Bool-cases, Option-cases, leb→le, get_elem?-ne-none, ◌⊎◌, inl, inr,
}
use native.Mathlib.Nat.{mod-lt}
use orcacommon.Common.Text.{Text, text_eq}
use orcacommon.Common.Text.Laws.{text_eq_iff, text_eq_refl}
use orcacommon.LiteSpa.Cache.{Cache, lookup, insert, delete, evict, put}

pub lookup-insert :
    (k j v : Text) (m : Cache)
    → lookup j (insert k v m) ≡ (if text_eq k j then some v else lookup j m)
unfolding lookup insert
lookup-insert k j v [] = refl
lookup-insert k j v ((i, u) ∷ m) =
    ground (arith, text_eq_iff k j, text_eq_iff i k, text_eq_iff i j, lookup-insert k j v m)

lookup-delete :
    (k j : Text) (m : Cache) → lookup j (delete k m) ≡ (if text_eq k j then none else lookup j m)
unfolding lookup delete
lookup-delete k j [] = ground arith
lookup-delete k j ((i, u) ∷ m) =
    ground (arith, text_eq_iff k j, text_eq_iff i k, text_eq_iff i j, lookup-delete k j m)

length-insert-le : (k v : Text) (m : Cache) → length (insert k v m) ≤ length m + 1
unfolding insert
length-insert-le k v [] = omega arith
length-insert-le k v ((j, u) ∷ m) = ground (arith, length-insert-le k v m)

length-delete-le : (k : Text) (m : Cache) → length (delete k m) ≤ length m
unfolding delete
length-delete-le k [] = omega arith
length-delete-le k ((j, u) ∷ m) = ground (arith, length-delete-le k m)

length-delete-lt :
    (i : ℕ) (m : Cache) (k v : Text) → get_elem? m i ≡ some (k, v) → length (delete k m) < length m
unfolding delete
length-delete-lt i [] k v h = cc
length-delete-lt zero ((j, u) ∷ m) k v h = ground (arith, text_eq_iff j k, length-delete-le k m)
length-delete-lt (suc i) ((j, u) ∷ m) k v h =
    ground (arith, length-delete-lt i m k v h, length-delete-le k m)

length-evict : (choice : ℕ) (m : Cache) → 0 < length m → length (evict choice m) < length m
unfolding evict
length-evict choice m h = elim (Option-cases (get_elem? m (choice % length m))) [
  | inl e ↦ absurd (get_elem?-ne-none m (choice % length m) (mod-lt choice h) e)
  | inr ((k, v), e) ↦ rw (e, evict) (length-delete-lt (choice % length m) m k v e)
]

-- Putting an entry keeps a cache within its capacity, whichever entry is evicted.
pub length-put-le :
    (capacity choice : ℕ) (k v : Text) (m : Cache)
    → 0 < capacity
    → length m ≤ capacity
    → length (put capacity choice k v m) ≤ capacity
unfolding put
length-put-le capacity choice k v m pos h = elim (Bool-cases (leb capacity (length m))) [
  | inl e ↦ rw e (
      omega (
        arith,
        leb→le capacity (length m) e,
        length-insert-le k v (evict choice m),
        length-evict choice m (omega (arith, leb→le capacity (length m) e)),
      ))
  | inr e ↦ rw e (ground (arith, length-insert-le k v m))
]

lookup-evict :
    (choice : ℕ) (j u : Text) (m : Cache) → lookup j (evict choice m) ≡ some u → lookup j m ≡ some u
unfolding evict
lookup-evict choice j u m h = elim (Option-cases (get_elem? m (choice % length m))) [
  | inl e ↦ rw (e, evict) at h
  | inr ((k, v), e) ↦ ground (arith, lookup-delete k j m, rw (e, evict) at h)
]

lookup_inserted :
    (k v j u : Text) (base m : Cache)
    → (lookup j base ≡ some u → lookup j m ≡ some u)
    → lookup j (insert k v base) ≡ some u
    → ((j ≡ k) × (u ≡ v)) ⊎ (lookup j m ≡ some u)
lookup_inserted k v j u base m kept h = ground (arith, lookup-insert k j v base, text_eq_iff k j)

-- After a put the entry is found, and any other that is found was there before.
pub lookup-put :
    (capacity choice : ℕ) (k v j u : Text) (m : Cache)
    → lookup j (put capacity choice k v m) ≡ some u
    → ((j ≡ k) × (u ≡ v)) ⊎ (lookup j m ≡ some u)
unfolding put
lookup-put capacity choice k v j u m h = elim (Bool-cases (leb capacity (length m))) [
  | inl e ↦
      lookup_inserted k v j u (evict choice m) m (lookup-evict choice j u m) (rw (e, put) at h)
  | inr e ↦ lookup_inserted k v j u m m (λ l. l) (rw (e, put) at h)
]

pub lookup-put_self :
    (capacity choice : ℕ) (k v : Text) (m : Cache) → lookup k (put capacity choice k v m) ≡ some v
unfolding put
lookup-put_self capacity choice k v m = rw (lookup-insert k k v _, text_eq_refl k) refl
