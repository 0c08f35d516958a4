-- ===== src/EphemeralAuth/Tests/Samples.antt =====
-- A hash and a token library that have the documented properties, to run the handlers with.
use text.Mathlib.Text.{◌==◌ as str_eq}
use text.Mathlib.TextEquality.{eq_iff}
use orcacommon.Common.{
  ℕ, zero, suc, ◌%◌, ◌*◌, ◌≡◌, refl, ltb, ltb→lt, lt→ltb, ◌==◌, ◌&&◌, ◌||◌, if◌then◌else◌, Bool,
  true, false, Option, none, some, List, [], ◌∷◌, ◌++◌, String, length, All, arith, inl, inr, sym,
  ap, ◌∙◌, subst,
}
use orcacommon.Common.Text.{Text, text_eq, codes}
use orcacommon.Common.Text.Laws.{text_eq_sound, text_eq_refl}
use orcacommon.EphemeralAuth.Base64.RoundTrip.{IsByte}
use orcacommon.EphemeralAuth.External.{
  Hash, IsHash, Claims, Method, Jwt, IsJwt, second, NotExpired, Listed, hs256,
}

-- Claims of ASCII texts only, which are valid UTF-8.
unfoldable pub is_plain_text : Text → Bool
is_plain_text [] = true
is_plain_text (c ∷ s) = ltb c 128 && is_plain_text s

unfoldable pub are_plain : List Text → Bool
are_plain [] = true
are_plain (s ∷ texts) = is_plain_text s && are_plain texts

abbrev pub IsPlain : Claims → Type 0
IsPlain c = are_plain (c.subject ∷ c.issuer ∷ c.ip_hash ∷ c.ua_hash ∷ c.scopes) ≡ true

-- The first bytes of a text, filled up with zeros.
abbrev pad : ℕ → Text → Text
pad zero s = []
pad (suc n) [] = 0 ∷ pad n []
pad (suc n) (c ∷ s) = (c % 256) ∷ pad n s

length-pad : (n : ℕ) (s : Text) → length (pad n s) ≡ n
length-pad zero s = refl
length-pad (suc n) [] = omega (arith, length-pad n [])
length-pad (suc n) (c ∷ s) = omega (arith, length-pad n s)

pad_bytes : (n : ℕ) (s : Text) → All IsByte (pad n s)
pad_bytes zero s = tt
pad_bytes (suc n) [] = (omega arith, pad_bytes n [])
pad_bytes (suc n) (c ∷ s) = (omega arith, pad_bytes n s)

abbrev pub sample_hash : Hash
sample_hash = record { sum256 = pad 32; hmac = λ k m. pad 32 (m ++ k) }

pub sample_hash-IsHash : IsHash sample_hash
sample_hash-IsHash = record {
  sum256_length = length-pad 32;
  hmac_length = λ k m. length-pad 32 (m ++ k);
  hmac_bytes = λ k m. pad_bytes 32 (m ++ k);
}

abbrev pub only_token : Text
only_token = codes "header.payload.signature"

-- A library that signs one token, for one key and one set of claims.
module _ (key : Text) (claims : Claims) where
  option_eq : Option ℕ → Option ℕ → Bool
  option_eq none none = true
  option_eq none (some _) = false
  option_eq (some _) none = false
  option_eq (some a) (some b) = a == b

  texts_eq : List Text → List Text → Bool
  texts_eq [] [] = true
  texts_eq [] (_ ∷ _) = false
  texts_eq (_ ∷ _) [] = false
  texts_eq (a ∷ s) (b ∷ t) = text_eq a b && texts_eq s t

  claims_eq : Claims → Claims → Bool
  claims_eq c d =
      text_eq c.subject d.subject
      && option_eq c.expires_at d.expires_at
      && option_eq c.issued_at d.issued_at
      && text_eq c.issuer d.issuer
      && text_eq c.ip_hash d.ip_hash
      && text_eq c.ua_hash d.ua_hash
      && texts_eq c.scopes d.scopes

  listed : String → List String → Bool
  listed a [] = false
  listed a (b ∷ bs) = str_eq a b || listed a bs

  not_expired : ℕ → Option ℕ → Bool
  not_expired now none = true
  not_expired now (some at) = ltb now (at * second)

  given : Option Text → Bool
  given none = false
  given (some k) = text_eq k key

  pub sample_sign : Text → Claims → Option Text
  sample_sign k c = if text_eq k key && claims_eq c claims then some only_token else none

  pub sample_parse : (Method → Option Text) → List String → ℕ → Text → Option (Claims × Bool)
  sample_parse keyfunc valid now token =
      if text_eq token only_token
        && given (keyfunc hs256)
        && listed "HS256" valid
        && not_expired now claims.expires_at
      then some (claims, true)
      else none

  abbrev pub sample_jwt : Jwt
  sample_jwt = record { sign = sample_sign; parse = sample_parse }

  abbrev pub SignedSample : Method → Text → Text → Claims → Type 0
  SignedSample m k token c = (m ≡ hs256) × (k ≡ key) × (token ≡ only_token) × (c ≡ claims)

  option_eq_sound : (a b : Option ℕ) → option_eq a b ≡ true → a ≡ b
  unfolding option_eq
  option_eq_sound none none h = refl
  option_eq_sound none (some _) h = cc
  option_eq_sound (some _) none h = cc
  option_eq_sound (some a) (some b) h = ground arith

  texts_eq_sound : (s t : List Text) → texts_eq s t ≡ true → s ≡ t
  unfolding texts_eq
  texts_eq_sound [] [] h = refl
  texts_eq_sound [] (_ ∷ _) h = cc
  texts_eq_sound (_ ∷ _) [] h = cc
  texts_eq_sound (a ∷ s) (b ∷ t) h = ground (arith, text_eq_sound a b, texts_eq_sound s t)

  claims_eq_sound : (c d : Claims) → claims_eq c d ≡ true → c ≡ d
  unfolding claims_eq
  claims_eq_sound c d h = ground (
    arith,
    text_eq_sound c.subject d.subject,
    option_eq_sound c.expires_at d.expires_at,
    option_eq_sound c.issued_at d.issued_at,
    text_eq_sound c.issuer d.issuer,
    text_eq_sound c.ip_hash d.ip_hash,
    text_eq_sound c.ua_hash d.ua_hash,
    texts_eq_sound c.scopes d.scopes,
  )

  listed_sound : (a : String) (bs : List String) → listed a bs ≡ true → Listed a bs
  unfolding listed
  listed_sound a [] h = cc
  listed_sound a (b ∷ bs) h = ground (arith, eq_iff a b, listed_sound a bs)

  listed_complete : (a : String) (bs : List String) → Listed a bs → listed a bs ≡ true
  unfolding listed
  listed_complete a [] h = absurd h
  listed_complete a (b ∷ bs) (inl e) = ground (arith, eq_iff a b)
  listed_complete a (b ∷ bs) (inr h) = ground (arith, eq_iff a b, listed_complete a bs h)

  not_expired_sound : (now : ℕ) (at : Option ℕ) → not_expired now at ≡ true → NotExpired now at
  unfolding not_expired
  not_expired_sound now none h = tt
  not_expired_sound now (some at) h = ltb→lt now (at * second) h

  not_expired_complete : (now : ℕ) (at : Option ℕ) → NotExpired now at → not_expired now at ≡ true
  unfolding not_expired
  not_expired_complete now none h = refl
  not_expired_complete now (some at) h = lt→ltb now (at * second) h

  given_sound : (o : Option Text) → given o ≡ true → o ≡ some key
  unfolding given
  given_sound none h = cc
  given_sound (some k) h = ap some (text_eq_sound k key h)

  parse_tests :
      (keyfunc : Method → Option Text) (valid : List String) (now : ℕ) (token : Text) (c : Claims)
      (ok : Bool)
      → sample_parse keyfunc valid now token ≡ some (c, ok)
      → (text_eq token only_token ≡ true)
        × (given (keyfunc hs256) ≡ true)
        × (listed "HS256" valid ≡ true)
        × (not_expired now claims.expires_at ≡ true)
        × (c ≡ claims)
  unfolding sample_parse
  parse_tests keyfunc valid now token c ok h = ground arith

  sample_parse_sound :
      (keyfunc : Method → Option Text) (valid : List String) (now : ℕ) (token : Text) (c : Claims)
      (ok : Bool)
      → sample_parse keyfunc valid now token ≡ some (c, ok)
      → (m : Method) × (k : Text) × Listed m.alg valid
        × (keyfunc m ≡ some k)
        × SignedSample m k token c
        × NotExpired now c.expires_at
  sample_parse_sound keyfunc valid now token c ok h =
      let (t, g, l, n, e) = parse_tests keyfunc valid now token c ok h in
      (
        hs256,
        key,
        listed_sound "HS256" valid l,
        given_sound (keyfunc hs256) g,
        (refl, refl, text_eq_sound token only_token t, e),
        rw e (not_expired_sound now claims.expires_at n),
      )

  sign_tests :
      (k token : Text) (c : Claims)
      → sample_sign k c ≡ some token
      → (text_eq k key ≡ true) × (claims_eq c claims ≡ true) × (token ≡ only_token)
  unfolding sample_sign
  sign_tests k token c h = ground arith

  sample_parse_complete :
      (keyfunc : Method → Option Text) (valid : List String) (now : ℕ)
      → keyfunc hs256 ≡ some key
      → Listed "HS256" valid
      → NotExpired now claims.expires_at
      → sample_parse keyfunc valid now only_token ≡ some (claims, true)
  unfolding sample_parse given
  sample_parse_complete keyfunc valid now keyed allowed fresh =
      let expiry = not_expired_complete now claims.expires_at fresh in
      let list = listed_complete "HS256" valid allowed in
      rw (text_eq_refl only_token, keyed, given, text_eq_refl key, list, expiry) refl

  signed_only :
      (k token : Text) (c : Claims) → sample_sign k c ≡ some token → SignedSample hs256 k token c
  unfolding sample_sign
  signed_only k token c h =
      let (same_key, same_claims, same_token) = sign_tests k token c h in
      (refl, text_eq_sound k key same_key, same_token, claims_eq_sound c claims same_claims)

  pub sample_jwt-IsJwt : IsJwt sample_jwt SignedSample IsPlain
  sample_jwt-IsJwt = record {
    parse_sound = sample_parse_sound;
    parse-sign = λ keyfunc valid now token k c plain signed keyed allowed fresh.
        let (_, same_key, same_token, same) = signed_only k token c signed in
        rw (same_token, same)
          (sample_parse_complete keyfunc valid now (keyed ∙ ap some same_key) allowed
            (subst (λ d. NotExpired now d.expires_at) same fresh));
    signed_by_sign = λ k token c plain h. signed_only k token c h;
    signed_unique = λ m m' k k' token c c' (_, _, _, e) (_, _, _, e'). e ∙ sym e';
  }

-- What a test of the samples computes with.
unfoldable pub samples : Unit {0}
unfolding sample_sign sample_parse claims_eq option_eq texts_eq listed not_expired given
    is_plain_text are_plain
samples = tt
