-- ===== src/LiteSpa/Csp/Nonce.antt =====
-- Nonces are alphanumeric.
use orcacommon.Common.{
  ℕ, zero, suc, ◌%◌, ◌<◌, ◌≡◌, refl, leb, ◌&&◌, ◌||◌, Bool, true, none, some, [], ◌∷◌, map, length,
  length-map, All, arith, inl, inr, ◌⊎◌, Option,
}
use orcacommon.Common.Text.{Text}
use orcacommon.LiteSpa.Csp.{nonce_char, generate_nonce}

abbrev pub is_alphanumeric : ℕ → Bool
is_alphanumeric c =
    (leb b'a' c && leb c b'z') || (leb b'A' c && leb c b'Z') || (leb b'0' c && leb c b'9')

-- Whether a test passes on all numbers before a bound.
passes_before : (ℕ → Bool) → ℕ → Bool
passes_before test zero = true
passes_before test (suc bound) = passes_before test bound && test bound

passes_at :
    (test : ℕ → Bool) (bound i : ℕ) → i < bound → passes_before test bound ≡ true → test i ≡ true
unfolding passes_before
passes_at test zero i lt h = absurd (omega arith)
passes_at test (suc bound) i lt h = ground (arith, passes_at test bound i)

alphabet_table : passes_before (λ i. is_alphanumeric (nonce_char i)) 62 ≡ true
unfolding passes_before nonce_char
alphabet_table = refl

nonce_char_mod : (b : ℕ) → nonce_char (b % 62) ≡ nonce_char b
unfolding nonce_char
nonce_char_mod b = let e : b % 62 % 62 ≡ b % 62 = omega arith in rw e refl

nonce_char_alphanumeric : (b : ℕ) → is_alphanumeric (nonce_char b) ≡ true
nonce_char_alphanumeric b =
    rw (← nonce_char_mod b) (passes_at _ 62 (b % 62) (omega arith) alphabet_table)

each_alphanumeric : (bytes : Text) → All (λ c. is_alphanumeric c ≡ true) (map nonce_char bytes)
each_alphanumeric [] = tt
each_alphanumeric (b ∷ bytes) = (nonce_char_alphanumeric b, each_alphanumeric bytes)

-- A nonce has as many characters as bytes were drawn, all of them letters or digits, so it closes
-- no quotation in the page or the header. Without randomness there is none.
pub generate_nonce_alphanumeric :
    (random : Option Text)
    → ((random ≡ none) × (generate_nonce random ≡ none))
      ⊎ ((bytes nonce : Text) × (random ≡ some bytes)
          × (generate_nonce random ≡ some nonce)
          × (length nonce ≡ length bytes)
          × All (λ c. is_alphanumeric c ≡ true) nonce)
unfolding generate_nonce
generate_nonce_alphanumeric none = inl (refl, refl)
generate_nonce_alphanumeric (some bytes) =
    inr (
      bytes,
      map nonce_char bytes,
      refl,
      refl,
      length-map nonce_char bytes,
      each_alphanumeric bytes,
    )
