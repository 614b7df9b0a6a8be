-- ===== src/Probe/Follow.antt =====
-- crates/swiftload-core/src/task/probe.rs: the requests of a probe. The HTTP client is a parameter: whether
-- it can be built, and what comes back of a request.
pub mod Requests
use ai_gen.Prelude.{
  ℕ, zero, suc, ◌+◌, ◌*◌, ◌-◌, Bool, true, false, not, ◌&&◌, ◌||◌, Option, none, some, List, [],
  ◌∷◌, leb, ltb, if◌then◌else◌, Text, eq_ignore_ascii_case,
}
use ai_gen.Prelude.Result.{Result, ok, err}
use ai_gen.Errors.{ErrorClass, classify_status}
use ai_gen.Headers.{parse_retry_after}
use ai_gen.Redirect.{Urls, RedirectError, too_many, malformed, is_web, next_url, is_cross_origin}

-- `RequestSpec`; `proxy` and `user_agent` are the client's.
pub record RequestSpec : Type 0 where
  pub headers : List (Text × Text)
  pub cookies : Option Text
  pub referer : Option Text
  pub user_agent : Option Text
  pub proxy : Option Text

pub record Request (U : Type 0) : Type 0 where
  pub url : U
  pub spec : RequestSpec

-- The status and the headers that the probe reads.
pub record Answer : Type 0 where
  pub status : ℕ
  pub location : Option Text
  pub retry_after : Option Text
  pub content_range : Option Text
  pub content_length : Option Text
  pub content_encoding : Option Text
  pub content_disposition : Option Text
  pub content_type : Option Text
  pub etag : Option Text
  pub last_modified : Option Text

pub record Client (U : Type 0) : Type 0 where
  pub build : RequestSpec → U → Bool
  pub send : (hop : ℕ) → Request U → Option Answer
  pub nanos_until : Text → Option ℕ  -- the parser of HTTP dates, and the clock

pub record Settings : Type 0 where
  pub max_redirects : ℕ
  pub block_insecure_redirect : Bool

pub data ProbeError : Type 0 where
  scheme_refused invalid_url transport client_failed : ProbeError
  redirect_refused : RedirectError → ProbeError
  bad_status : (status : ℕ) → ErrorClass → ProbeError

abbrev pub authorization : Text
authorization = 97 ∷ 117 ∷ 116 ∷ 104 ∷ 111 ∷ 114 ∷ 105 ∷ 122 ∷ 97 ∷ 116 ∷ 105 ∷ 111 ∷ 110 ∷ []

abbrev pub cookie : Text
cookie = 99 ∷ 111 ∷ 111 ∷ 107 ∷ 105 ∷ 101 ∷ []

abbrev pub proxy_authorization : Text
proxy_authorization =
    112 ∷ 114 ∷ 111 ∷ 120 ∷ 121 ∷ 45 ∷ 97 ∷ 117 ∷ 116 ∷ 104 ∷ 111 ∷ 114 ∷ 105 ∷ 122 ∷ 97 ∷ 116 ∷ 105
    ∷ 111 ∷ 110 ∷ []

abbrev pub is_credential : Text → Bool
is_credential name =
    eq_ignore_ascii_case name authorization
    || eq_ignore_ascii_case name cookie
    || eq_ignore_ascii_case name proxy_authorization

unfoldable pub strip_auth : List (Text × Text) → List (Text × Text)
strip_auth [] = []
strip_auth ((name, value) ∷ rest) =
    if is_credential name then strip_auth rest else (name, value) ∷ strip_auth rest

-- What a probe did: its requests, and how it ended.
pub record Probed (U : Type 0) : Type 0 where
  pub requests : List (Request U)
  pub result : Result ProbeError (U × Answer)

abbrev pub is_redirect : Answer → Bool
is_redirect a = leb 300 a.status && ltb a.status 400

module _ {U : Type 0} ⦃urls : Urls U⦄ where
  abbrev pub accepted : Option U → Result ProbeError U
  accepted none = err invalid_url
  accepted (some url) = if is_web (urls.scheme url) then ok url else err scheme_refused

  unfoldable pub validate_url : Text → Result ProbeError U
  validate_url raw = accepted (urls.parse raw)

  -- The caller's credentials are for the first origin only.
  unfoldable pub effective_spec : U → RequestSpec → U → RequestSpec
  effective_spec origin spec current =
      if is_cross_origin origin current
      then record spec { cookies = none; headers = strip_auth spec.headers }
      else spec

  abbrev pub after : Request U → Probed U → Probed U
  after request p = record { requests = request ∷ p.requests; result = p.result }

  abbrev pub ended : Request U → Result ProbeError (U × Answer) → Probed U
  ended request r = record { requests = request ∷ []; result = r }

  -- What a status that is no redirect means.
  unfoldable pub conclude : Client U → Bool → U → Answer → Result ProbeError (U × Answer)
  unfolding classify_status parse_retry_after
  conclude c worked current a =
      let retry_after : Option ℕ = elim a.retry_after [
        | none ↦ none
        | some v ↦ parse_retry_after c.nanos_until v (120 * 1000000000)
      ] in
      if leb 200 a.status && ltb a.status 300
      then ok (current, a)
      else err (bad_status a.status (classify_status a.status retry_after worked))

  unfoldable pub location_of : U → Bool → Option Text → Result RedirectError U
  unfolding next_url
  location_of current allow_downgrade none = err malformed
  location_of current allow_downgrade (some location) = next_url current location allow_downgrade

  -- What follows a redirect.
  abbrev pub follow : Request U → (U → Probed U) → Result RedirectError U → Probed U
  follow request next (err e) = ended request (err (redirect_refused e))
  follow request next (ok url) = after request (next url)

  unfoldable pub sent_at : U → RequestSpec → U → Request U
  unfolding effective_spec
  sent_at origin spec current = record { url = current; spec = effective_spec origin spec current }

  -- One round of the loop of `probe`, with what it does at a redirect.
  unfoldable pub probe_hop :
      Client U
      → RequestSpec
      → Bool
      → (origin : U) → (hop : ℕ) → (current : U) → (Request U → Answer → Probed U)
      → Probed U
  unfolding conclude sent_at
  probe_hop c spec worked origin hop current redirected =
      let request = sent_at origin spec current in
      if not (c.build spec current)
      then record { requests = []; result = err client_failed }
      else elim (c.send hop request) [
        | none ↦ ended request (err transport)
        | some a ↦
            if is_redirect a
            then redirected request a
            else ended request (conclude c worked current a)
      ]

  -- The loop of `probe`: `left` hops are left behind this one.
  unfoldable pub probe_loop :
      Client U
      → Settings
      → RequestSpec
      → Bool
      → (origin : U) → (hop left : ℕ) → (current : U) → Probed U
  unfolding probe_hop location_of
  probe_loop c s spec worked origin hop zero current =
      probe_hop c spec worked origin hop current
        (λ request a. ended request (err (redirect_refused (too_many s.max_redirects))))
  probe_loop c s spec worked origin hop (suc left) current =
      probe_hop c spec worked origin hop current (λ request a.
        follow request (probe_loop c s spec worked origin (hop + 1) left)
          (location_of current (not s.block_insecure_redirect) a.location))

  unfoldable pub probe_from :
      Client U → Settings → RequestSpec → Bool → Result ProbeError U → Probed U
  unfolding probe_loop
  probe_from c s spec worked (err e) = record { requests = []; result = err e }
  probe_from c s spec worked (ok url) = probe_loop c s spec worked url 0 s.max_redirects url

  unfoldable pub probe : Client U → Settings → RequestSpec → Bool → Text → Probed U
  unfolding validate_url probe_from
  probe c s spec worked raw_url = probe_from c s spec worked (validate_url raw_url)
