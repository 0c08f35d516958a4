-- ===== src/LiteSpa/Fetch.antt =====
-- litespaserver/fetcher.go. `Get` is what a GET of a URL gives: the status and the whole body, `none`
-- if the request cannot be built or sent, or if the body cannot be read.
use orcacommon.Common.{
  ℕ, ◌≤◌, ◌<◌, ◌≡◌, ltb, leb, not, ◌||◌, ◌↔◌, if◌then◌else◌, true, Option, none, some, ◌++◌, arith,
  Option-cases, inl, inr, ap, ◌∙◌, sym, subst,
}
use orcacommon.Common.Text.{Text, codes, contains}

abbrev pub Get : Type 0
Get = Text → Option (ℕ × Text)

pub record FetchedVersion : Type 0 where
  pub url : Text
  pub content : Text

abbrev pub index_url : Text → Text → Text
index_url cdn version = cdn ++ codes "/" ++ version ++ codes "/index.html"

-- The test on a response.
unfoldable pub check_response : Text → Text → ℕ → Text → Option FetchedVersion
check_response cdn url status body =
    if ltb status 200 || leb 300 status
    then none
    else if not (contains body cdn)
    then none
    else some (record { url = url; content = body })

-- `fetch`.
unfoldable pub fetch : Get → Text → Text → Option FetchedVersion
fetch get cdn version = elim (get (index_url cdn version)) [
  | none ↦ none
  | some (status, body) ↦ check_response cdn (index_url cdn version) status body
]

check_response_iff :
    (cdn url body : Text) (status : ℕ) (f : FetchedVersion)
    → (check_response cdn url status body ≡ some f) ↔ (
        (200 ≤ status)
        × (status < 300)
        × (contains body cdn ≡ true)
        × (f ≡ record { url = url; content = body }))
unfolding check_response
check_response_iff cdn url body status f = (
  λ h. (ground arith, ground arith, ground arith, ground arith),
  λ (low, high, found, e). ground arith,
)

-- A version is fetched exactly if its index.html is answered with a status from 200 to 299 and
-- contains the CDN prefix; the content is the whole body.
pub fetch_iff :
    (get : Get) (cdn version : Text) (f : FetchedVersion)
    → (fetch get cdn version ≡ some f) ↔ (
        (status : ℕ) × (get (index_url cdn version) ≡ some (status, f.content))
        × (200 ≤ status)
        × (status < 300)
        × (contains f.content cdn ≡ true)
        × (f.url ≡ index_url cdn version))
unfolding fetch
fetch_iff get cdn version f = elim (Option-cases (get (index_url cdn version))) [
  | inl e ↦ (λ h. cc (rw (e, fetch) at h), λ (_, k, _, _, _, _). absurd (cc (e, k)))
  | inr ((status, body), e) ↦
      let (to, from) = check_response_iff cdn (index_url cdn version) body status f in
      (
        λ h.
            let (low, high, found, same) = to (rw (e, fetch) at h) in
            (
              status,
              e ∙ ap (λ b. some (status, b)) (ap (λ g. g.content) (sym same)),
              low,
              high,
              subst (λ g. contains g.content cdn ≡ true) (sym same) found,
              ap (λ g. g.url) same,
            ),
        λ (code, k, low, high, found, same).
            let same_code : status ≡ code = cc in
            let same_body : body ≡ f.content = cc in
            rw (e, fetch)
              (from (
                rw same_code low,
                rw same_code high,
                rw same_body found,
                ground (arith, same, same_body),
              )),
      )
]
