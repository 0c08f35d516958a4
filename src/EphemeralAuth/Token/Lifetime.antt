-- ===== src/EphemeralAuth/Token/Lifetime.antt =====
-- Keys and lifetimes of tokens.
use orcacommon.Common.{
  ℕ, suc, ◌*◌, ◌≤◌, ◌≡◌, ◌≢◌, refl, some, [], ◌∷◌, arith, length, none, Bool-cases, inl, inr, ◌⊎◌,
  ltb, ◌==◌, if◌then◌else◌,
}
use orcacommon.Common.Text.{Text}
use orcacommon.Common.Word.{ℤ, pos, negsuc, mul_word, mul_word_pos}
use orcacommon.EphemeralAuth.External.{Hash, IsHash, second}
use orcacommon.EphemeralAuth.Token.{
  max_token_ttl, derive_key, clamp_ttl, Issuer, new_issuer, Config, config_ttl, config_issuer,
}

pub clamp_ttl_bounds : (t : ℤ) → (60 * second ≤ clamp_ttl t) × (clamp_ttl t ≤ max_token_ttl)
unfolding clamp_ttl
clamp_ttl_bounds (negsuc n) = omega arith
clamp_ttl_bounds (pos n) = ground arith

clamp_ttl_idem : (t : ℤ) → clamp_ttl (pos (clamp_ttl t)) ≡ clamp_ttl t
unfolding clamp_ttl
clamp_ttl_idem (negsuc n) = refl
clamp_ttl_idem (pos n) = ground arith

derive_key-length :
    (h : Hash) (raw key : Text) → IsHash h → derive_key h raw ≡ some key → length key ≡ 32
unfolding derive_key
derive_key-length h raw key w e = ground (arith, w.sum256_length raw)

clamp_seconds :
    (n : ℕ)
    → clamp_ttl (pos (n * second))
      ≡ (if n == 0 then 120 else if ltb n 60 then 60 else if ltb 180 n then 180 else n) * second
unfolding clamp_ttl
clamp_seconds n = ground arith

-- `DeriveKey` panics on the empty key only; the key that it gives has 32 bytes, and deriving a key
-- again changes nothing.
pub derive_key_total :
    (h : Hash) (raw : Text)
    → IsHash h
    → ((raw ≡ []) × (derive_key h raw ≡ none))
      ⊎ ((key : Text) × (raw ≢ [])
          × (derive_key h raw ≡ some key)
          × (length key ≡ 32)
          × (derive_key h key ≡ some key))
unfolding derive_key
derive_key_total h [] w = inl (refl, refl)
derive_key_total h (a ∷ raw) w = elim (Bool-cases (suc (length raw) == 32)) [
  | inl same ↦ inr (a ∷ raw, λ e. cc, ground arith, ground arith, ground arith)
  | inr other ↦
      let l = w.sum256_length (a ∷ raw) in
      inr (h.sum256 (a ∷ raw), λ e. cc, ground arith, l, ground arith)
]

-- Every issuer that a configuration gives has a key of 32 bytes and a lifetime between one and
-- three minutes, whatever the configured number of seconds is, also where it overflows. There is
-- one for every signing key but the empty one.
pub config_issuer_valid :
    (h : Hash) (c : Config)
    → IsHash h
    → c.signing_key ≢ []
    → (iss : Issuer) × (config_issuer h c ≡ some iss)
      × (length iss.signing_key ≡ 32)
      × (60 * second ≤ iss.ttl)
      × (iss.ttl ≤ max_token_ttl)
      × (iss.ttl ≡ config_ttl c)
unfolding config_issuer new_issuer config_ttl
config_issuer_valid h c w e = elim (derive_key_total h c.signing_key w) [
  | inl (bad, _) ↦ absurd (e bad)
  | inr (key, _, found, l, _) ↦
      let idem = clamp_ttl_idem (mul_word c.token_ttl_seconds second) in
      let (low, high) = clamp_ttl_bounds (mul_word c.token_ttl_seconds second) in
      (
        record { signing_key = key; ttl = config_ttl c },
        ground (arith, found, idem),
        l,
        low,
        high,
        refl,
      )
]

-- A number of seconds that does not overflow as nanoseconds is clamped to the range from 60 to 180;
-- zero stands for 120.
pub config_ttl_lem :
    (c : Config) (n : ℕ)
    → c.token_ttl_seconds ≡ pos n
    → n ≤ 9223372036
    → config_ttl c
      ≡ (if n == 0 then 120 else if ltb n 60 then 60 else if ltb 180 n then 180 else n) * second
unfolding config_ttl
config_ttl_lem c n e h =
    let fits = mul_word_pos n second (omega arith) (omega arith) in rw (e, fits) (clamp_seconds n)
