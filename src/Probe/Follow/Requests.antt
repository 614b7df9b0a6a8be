-- ===== src/Probe/Follow/Requests.antt =====
-- crates/swiftload-core/src/task/probe.rs: the requests that a probe makes.
use ai_gen.Prelude.{
  ℕ, zero, suc, ◌+◌, ◌≤◌, ◌≡◌, refl, Bool, true, false, not, ◌&&◌, Option, none, some, List, [],
  ◌∷◌, if◌then◌else◌, Text, arith, ap, length, same_text, option_all, if_both, if_both_eq,
}
use mathlib.Core.Path.{subst⁻¹}
use ai_gen.Prelude.Result.{Result, ok, err}
use ai_gen.Redirect.{
  Urls, RedirectError, is_web, https, http, insecure_downgrade, unsupported_scheme, too_many,
  next_url, checked_join, checked_url, is_cross_origin,
}
use ai_gen.Probe.Follow.{
  redirect_refused, accepted, scheme_refused, RequestSpec, Request, Answer, Client, Settings,
  is_credential, strip_auth, validate_url, effective_spec, Probed, ended, conclude, location_of,
  is_redirect, follow, sent_at, probe_hop, probe_loop, probe_from, probe, client_failed, transport,
}

-- No header of the list carries a credential.
abbrev pub NoCredential : List (Text × Text) → Type 0
NoCredential [] = Unit {0}
NoCredential ((name, value) ∷ rest) = (is_credential name ≡ false) × NoCredential rest

pub strip_auth-NoCredential : (headers : List (Text × Text)) → NoCredential (strip_auth headers)
unfolding strip_auth
strip_auth-NoCredential [] = tt
strip_auth-NoCredential ((name, value) ∷ rest) =
    if_both_eq NoCredential (is_credential name) _ _ (λ e. strip_auth-NoCredential rest)
      (λ e. (e, strip_auth-NoCredential rest))

module _ {U : Type 0} ⦃urls : Urls U⦄ where
  -- A request that a probe of `origin` may make: over http or https, without credentials if to another
  -- origin and with the caller's headers otherwise, and over https if downgrades are refused and the
  -- origin is.
  pub record IsAllowed (s : Settings) (spec : RequestSpec) (origin : U) (r : Request U)
      : Type 0 where
    pub web : is_web (urls.scheme r.url) ≡ true
    pub foreign :
        is_cross_origin origin r.url ≡ true → (r.spec.cookies ≡ none) × NoCredential r.spec.headers
    pub own : is_cross_origin origin r.url ≡ false → r.spec ≡ spec
    pub secure :
        s.block_insecure_redirect ≡ true
        → same_text (urls.scheme origin) https ≡ true
        → same_text (urls.scheme r.url) https ≡ true

  -- An address that the probe may go to.
  record IsOpen (s : Settings) (origin url : U) : Type 0 where
    web : is_web (urls.scheme url) ≡ true
    secure :
        s.block_insecure_redirect ≡ true
        → same_text (urls.scheme origin) https ≡ true
        → same_text (urls.scheme url) https ≡ true

  effective_spec-foreign :
      (origin : U) (spec : RequestSpec) (current : U)
      → is_cross_origin origin current ≡ true
      → effective_spec origin spec current
        ≡ record spec { cookies = none; headers = strip_auth spec.headers }
  unfolding effective_spec
  effective_spec-foreign origin spec current e =
      ap
        (λ b. if b then record spec { cookies = none; headers = strip_auth spec.headers } else spec)
        e

  sent_at-IsAllowed :
      (s : Settings) (spec : RequestSpec) (origin current : U)
      → IsOpen s origin current
      → IsAllowed s spec origin (sent_at origin spec current)
  unfolding effective_spec sent_at
  sent_at-IsAllowed s spec origin current o = record {
    web = o.web;
    foreign = λ e.
        subst⁻¹ (λ (t : RequestSpec). (t.cookies ≡ none) × NoCredential t.headers)
          (effective_spec-foreign origin spec current e)
          (refl, strip_auth-NoCredential spec.headers);
    own = λ e.
        ap
          (λ b.
            if b then record spec { cookies = none; headers = strip_auth spec.headers } else spec)
          e;
    secure = o.secure;
  }

  Opens : Settings → U → Result RedirectError U → Type 0
  Opens s origin (err e) = Unit {0}
  Opens s origin (ok url) = IsOpen s origin url

  checked_url-Opens :
      (s : Settings) (origin current next : U)
      → IsOpen s origin current
      → Opens s origin (checked_url current next (not s.block_insecure_redirect))
  unfolding checked_url Opens
  checked_url-Opens s origin current next o =
      let downgrade = same_text (urls.scheme current) https && same_text (urls.scheme next) http in
      let refused = downgrade && not (not s.block_insecure_redirect) in
      let rest : Result RedirectError U = if refused then err insecure_downgrade else ok next in
      if_both_eq (Opens s origin) (not (is_web (urls.scheme next)))
        (err (unsupported_scheme (urls.scheme next))) rest (λ e. tt)
        (λ e.
          if_both_eq (Opens s origin) refused (err insecure_downgrade) (ok next) (λ q. tt)
            (λ q. record {
              web = ground (arith, e);
              secure = λ b h. ground (arith, e, q, o.secure b h);
            }))

  checked_join-Opens :
      (s : Settings) (origin current : U) (next : Option U)
      → IsOpen s origin current
      → Opens s origin (checked_join current next (not s.block_insecure_redirect))
  unfolding Opens checked_join
  checked_join-Opens s origin current none o = tt
  checked_join-Opens s origin current (some next) o = checked_url-Opens s origin current next o

  location_of-Opens :
      (s : Settings) (origin current : U) (location : Option Text)
      → IsOpen s origin current
      → Opens s origin (location_of current (not s.block_insecure_redirect) location)
  unfolding next_url Opens location_of
  location_of-Opens s origin current none o = tt
  location_of-Opens s origin current (some location) o =
      checked_join-Opens s origin current (urls.join current location) o

  AllAllowed : Settings → RequestSpec → U → List (Request U) → Type 0
  AllAllowed s spec origin [] = Unit {0}
  AllAllowed s spec origin (r ∷ rs) = IsAllowed s spec origin r × AllAllowed s spec origin rs

  -- What the result says of the last request, and how many there are.
  Within : Settings → RequestSpec → U → ℕ → Probed U → Type 0
  Within s spec origin limit p = AllAllowed s spec origin p.requests × (length p.requests ≤ limit)

  follow-Within :
      (s : Settings) (spec : RequestSpec) (origin : U) (limit : ℕ) (request : Request U)
      (next : U → Probed U) (r : Result RedirectError U)
      → IsAllowed s spec origin request
      → Opens s origin r
      → ((url : U) → IsOpen s origin url → Within s spec origin limit (next url))
      → Within s spec origin (suc limit) (follow request next r)
  unfolding Within AllAllowed Opens
  follow-Within s spec origin limit request next (err e) h o later = ((h, tt), ground arith)
  follow-Within s spec origin limit request next (ok url) h o later =
      ((h, (later url o).0), ground (arith, (later url o).1))

  probe_hop-Within :
      (c : Client U) (s : Settings) (spec : RequestSpec) (worked : Bool) (origin : U)
      (hop limit : ℕ) (current : U) (redirected : Request U → Answer → Probed U)
      → IsOpen s origin current
      → ((a : Answer)
          → Within s spec origin (suc limit) (redirected (sent_at origin spec current) a))
      → Within s spec origin (suc limit) (probe_hop c spec worked origin hop current redirected)
  unfolding probe_hop Within AllAllowed
  probe_hop-Within c s spec worked origin hop limit current redirected o h =
      let request = sent_at origin spec current in
      let allowed = sent_at-IsAllowed s spec origin current o in
      let refused : Probed U = record { requests = []; result = err client_failed } in
      let on_answer : Answer → Probed U = λ a.
        if is_redirect a
        then redirected request a
        else ended request (conclude c worked current a) in
      if_both (Within s spec origin (suc limit)) (not (c.build spec current)) refused _
        (tt, ground arith)
        (option_all (Within s spec origin (suc limit)) (ended request (err transport)) on_answer
          (c.send hop request) ((allowed, tt), ground arith)
          (λ a.
            if_both (Within s spec origin (suc limit)) (is_redirect a) (redirected request a)
              (ended request (conclude c worked current a)) (h a) ((allowed, tt), ground arith)))

  probe_loop-Within :
      (c : Client U) (s : Settings) (spec : RequestSpec) (worked : Bool) (origin : U) (hop left : ℕ)
      (current : U)
      → IsOpen s origin current
      → Within s spec origin (suc left) (probe_loop c s spec worked origin hop left current)
  unfolding probe_loop Within AllAllowed
  probe_loop-Within c s spec worked origin hop zero current o =
      probe_hop-Within c s spec worked origin hop 0 current
        (λ request a. ended request (err (redirect_refused (too_many s.max_redirects)))) o
        (λ a. ((sent_at-IsAllowed s spec origin current o, tt), ground arith))
  probe_loop-Within c s spec worked origin hop (suc left) current o =
      probe_hop-Within c s spec worked origin hop (suc left) current
        (λ request a.
          follow request (probe_loop c s spec worked origin (hop + 1) left)
            (location_of current (not s.block_insecure_redirect) a.location))
        o
        (λ a.
          follow-Within s spec origin (suc left) (sent_at origin spec current)
            (probe_loop c s spec worked origin (hop + 1) left)
            (location_of current (not s.block_insecure_redirect) a.location)
            (sent_at-IsAllowed s spec origin current o)
            (location_of-Opens s origin current a.location o)
            (λ url u. probe_loop-Within c s spec worked origin (hop + 1) left url u))

  -- What a probe of an address that the parser accepts does: its requests are all allowed for that
  -- address, and there are at most one more than redirects are allowed; of another, no request is made.
  pub Obeys : Settings → RequestSpec → Option U → Probed U → Type 0
  Obeys s spec none p = p.requests ≡ []
  Obeys s spec (some origin) p = Within s spec origin (suc s.max_redirects) p

  accepted-Obeys :
      (c : Client U) (s : Settings) (spec : RequestSpec) (worked : Bool) (parsed : Option U)
      → Obeys s spec parsed (probe_from c s spec worked (accepted parsed))
  unfolding Obeys Within AllAllowed probe_from
  accepted-Obeys c s spec worked none = refl
  accepted-Obeys c s spec worked (some url) =
      if_both_eq (λ r. Within s spec url (suc s.max_redirects) (probe_from c s spec worked r))
        (is_web (urls.scheme url)) (ok url) (err scheme_refused)
        (λ e.
          probe_loop-Within c s spec worked url 0 s.max_redirects url
            record { web = e; secure = λ b h. h })
        (λ e. (tt, ground arith))

  -- Whatever the server answers, a probe makes at most one request more than redirects are allowed, each
  -- over http or https; to another origin it sends no cookies and no header that carries a credential,
  -- to its own it sends what the caller gave; and where downgrades are refused a probe that starts with
  -- https stays with it. An address that cannot be parsed is never requested.
  pub probe-Obeys :
      (c : Client U) (s : Settings) (spec : RequestSpec) (worked : Bool) (raw_url : Text)
      → Obeys s spec (urls.parse raw_url) (probe c s spec worked raw_url)
  unfolding probe validate_url
  probe-Obeys c s spec worked raw_url = accepted-Obeys c s spec worked (urls.parse raw_url)
