-- ===== src/LiteSpa/Csp/Rule.antt =====
-- The nonce in the policy.
use orcacommon.Common.{◌≡◌, ◌≢◌, refl, sym, ◌∙◌, ap, List, [], ◌∷◌, ◌++◌, is_empty-eq-false}
use mathlib.Core.List.{append_assoc}
use orcacommon.Common.Text.{Text, codes, join}
use orcacommon.LiteSpa.Csp.{
  CspConfig, style_src, csp_rule, other_directives, or_default, default_style_srcs,
}

join-append_last :
    (ps : List Text) (p t sep : Text)
    → join (ps ++ (p ++ t) ∷ []) sep ≡ join (ps ++ p ∷ []) sep ++ t
unfolding join
join-append_last [] p t sep = refl
join-append_last (q ∷ []) p t sep = sym (append_assoc (q ++ sep) p t)
join-append_last (q ∷ r ∷ ps) p t sep =
    ap (λ u. (q ++ sep) ++ u) (join-append_last (r ∷ ps) p t sep)
    ∙ sym (append_assoc (q ++ sep) (join (r ∷ ps ++ p ∷ []) sep) t)

-- The source that a nonce adds.
unfoldable pub nonce_source : Text → Text
nonce_source nonce = codes " 'nonce-" ++ (nonce ++ codes "'")

style_src_nonce :
    (csp : CspConfig) (nonce : Text)
    → nonce ≢ []
    → style_src csp nonce ≡ style_src csp [] ++ nonce_source nonce
unfolding style_src nonce_source
style_src_nonce csp nonce e =
    let srcs = join (or_default csp.style_srcs default_style_srcs) (codes " ") in
    rw (is_empty-eq-false nonce e) (
      append_assoc (srcs ++ codes " 'nonce-") nonce (codes "'")
      ∙ append_assoc srcs (codes " 'nonce-") (nonce ++ codes "'"))

-- A nonce adds its source at the end of the policy, which is the end of `style-src`, and changes
-- nothing else.
pub csp_rule_nonce :
    (csp : CspConfig) (nonce : Text)
    → nonce ≢ []
    → csp_rule csp nonce ≡ csp_rule csp [] ++ nonce_source nonce
unfolding csp_rule
csp_rule_nonce csp nonce e = rw (style_src_nonce csp nonce e) (
    rw (← append_assoc (codes "style-src ") (style_src csp []) (nonce_source nonce)) (
      join-append_last (other_directives csp) (codes "style-src " ++ style_src csp [])
        (nonce_source nonce) (codes "; ")))
