-- ===== src/Pool/Registry/Owners.antt =====
-- Owners, as numbers of goroutines: each open channel has one, and making an entry or closing a
-- channel keeps it so.
use orcacommon.Common.{
  ℕ, suc, ◌<◌, ◌≡◌, sym, ◌∙◌, ◌==◌, if◌then◌else◌, Bool, true, false, Option, none, some, arith,
  Bool-cases, inl, inr,
}

-- `O t` is the entry that the goroutine `t` owns, `D e` says whether the channel of `e` is closed, and
-- `n` entries were made.
pub record IsOwned (O : ℕ → Option ℕ) (D : ℕ → Bool) (n : ℕ) : Type 0 where
  pub is_open : (t e : ℕ) → O t ≡ some e → D e ≡ false
  pub unique : (t u e : ℕ) → O t ≡ some e → O u ≡ some e → t ≡ u
  pub has_owner : (e : ℕ) → e < n → D e ≡ false → (t : ℕ) × (O t ≡ some e)
  pub is_made : (t e : ℕ) → O t ≡ some e → e < n

none-ne-some : {e : ℕ} → none ≡ some e → ⊥
none-ne-some h = cc

pub no_owner : (O : ℕ → Option ℕ) (D : ℕ → Bool) → ((t : ℕ) → O t ≡ none) → IsOwned O D 0
no_owner O D h = record {
  is_open = λ t e k. absurd (none-ne-some (sym (h t) ∙ k));
  unique = λ t u e k l. absurd (none-ne-some (sym (h t) ∙ k));
  has_owner = λ e l d. absurd (omega arith);
  is_made = λ t e k. absurd (none-ne-some (sym (h t) ∙ k));
}

module _ (O P : ℕ → Option ℕ) (D E : ℕ → Bool) (n m : ℕ) (inv : IsOwned O D n) where
  pub keeps-IsOwned : ((t : ℕ) → P t ≡ O t) → ((e : ℕ) → E e ≡ D e) → m ≡ n → IsOwned P E m
  keeps-IsOwned h d k = record {
    is_open = λ t e o. d e ∙ inv.is_open t e (sym (h t) ∙ o);
    unique = λ t u e o p. inv.unique t u e (sym (h t) ∙ o) (sym (h u) ∙ p);
    has_owner =
        λ e l c. let (t, o) = inv.has_owner e (omega (arith, k, l)) (sym (d e) ∙ c) in (t, h t ∙ o);
    is_made = λ t e o. omega (arith, k, inv.is_made t e (sym (h t) ∙ o));
  }

  pub makes-IsOwned :
      (t : ℕ)
      → O t ≡ none
      → ((u : ℕ) → P u ≡ (if u == t then some n else O u))
      → ((e : ℕ) → E e ≡ (if e == n then false else D e))
      → m ≡ suc n
      → IsOwned P E m
  makes-IsOwned t o h d k = record {
    is_open = λ u e p. ground (arith, h u, d e, inv.is_open u e);
    unique =
        λ u v e p q. ground (arith, h u, h v, inv.unique u v e, inv.is_made u e, inv.is_made v e);
    has_owner = λ e l c. elim (Bool-cases (e == n)) [
      | inl b ↦ (t, ground (arith, h t))
      | inr b ↦
          let old = inv.has_owner e (ground arith) (ground (arith, d e)) in
          (old.0, ground (arith, h old.0, old.1))
    ];
    is_made = λ u e p. ground (arith, h u, inv.is_made u e);
  }

  pub ends-IsOwned :
      (t e : ℕ)
      → O t ≡ some e
      → ((u : ℕ) → P u ≡ (if u == t then none else O u))
      → ((i : ℕ) → E i ≡ (if i == e then true else D i))
      → m ≡ n
      → IsOwned P E m
  ends-IsOwned t e o h d k = record {
    is_open = λ u i p. ground (arith, h u, d i, inv.is_open u i, inv.unique u t e);
    unique = λ u v i p q. ground (arith, h u, h v, inv.unique u v i);
    has_owner = λ i l c.
        let old = inv.has_owner i (ground arith) (ground (arith, d i)) in
        (old.0, ground (arith, h old.0, old.1, d i));
    is_made = λ u i p. ground (arith, h u, inv.is_made u i);
  }
