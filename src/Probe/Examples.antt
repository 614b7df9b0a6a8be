-- ===== src/Probe/Examples.antt =====
-- crates/swiftload-core/src/task/probe.rs: a probe that is sent to another host.
use ai_gen.Prelude.{
  ℕ, zero, suc, ◌≡◌, refl, true, false, Option, none, some, List, [], ◌∷◌, Text, map,
}
use ai_gen.Filename.Header.{Percent}
use ai_gen.Redirect.{Urls, https, is_cross_origin}
use ai_gen.Probe.Follow.{
  RequestSpec, Request, Answer, Client, Settings, probe, strip_auth, authorization,
}
use ai_gen.Probe.Follow.Requests.{Obeys, probe-Obeys}
use ai_gen.Probe.Interpret.{interpret}

-- An address by its host, over https.
record Site : Type 0 where
  host : Text

instance abbrev sites : Urls Site
sites = record {
  parse = λ raw. some (record { host = raw });
  join = λ from location. some (record { host = location });
  scheme = λ u. https;
  host_str = λ u. some u.host;
  port_or_known_default = λ u. some 443;
  path_segments = λ u. none;
}

abbrev silent : Answer
silent = record {
  status = 206;
  location = none;
  retry_after = none;
  content_range = some (98 ∷ 121 ∷ 116 ∷ 101 ∷ 115 ∷ 32 ∷ 48 ∷ 45 ∷ 48 ∷ 47 ∷ 57 ∷ []);
  content_length = some (49 ∷ []);
  content_encoding = none;
  content_disposition = none;
  content_type = none;
  etag = none;
  last_modified = none;
}

-- The first host sends to another, which answers.
abbrev answer_at : ℕ → Option Answer
answer_at zero = some (record silent { status = 302; location = some (98 ∷ []) })
answer_at (suc hop) = some silent

abbrev client : Client Site
client = record {
  build = λ spec target. true;
  send = λ hop request. answer_at hop;
  nanos_until = λ s. none;
}

abbrev settings : Settings
settings = record { max_redirects = 10; block_insecure_redirect = true }

abbrev logged_in : RequestSpec
logged_in = record {
  headers = (authorization, 120 ∷ []) ∷ (97 ∷ [], 98 ∷ []) ∷ [];
  cookies = some (99 ∷ []);
  referer = none;
  user_agent = none;
  proxy = none;
}

stripped : List (Option Text × List (Text × Text))
stripped =
    map (λ (r : Request Site). (r.spec.cookies, r.spec.headers))
      (probe client settings logged_in false (97 ∷ [])).requests

stripped_runs :
    stripped
    ≡ (some (99 ∷ []), (authorization, 120 ∷ []) ∷ (97 ∷ [], 98 ∷ []) ∷ [])
      ∷ (none, (97 ∷ [], 98 ∷ []) ∷ [])
      ∷ []
unfolding stripped probe is_cross_origin strip_auth
stripped_runs = refl

probe-Obeys_example :
    Obeys settings logged_in
      (some (record { host = 97 ∷ [] }))
      (probe client settings logged_in false (97 ∷ []))
probe-Obeys_example = probe-Obeys client settings logged_in false (97 ∷ [])

verbatim : Percent
verbatim = record { utf8 = λ s. s; latin1 = λ s. s }

abbrev site : Site
site = record { host = 97 ∷ [] }

interpret_runs : (interpret {U = Site} verbatim site silent).total_size ≡ some 9
unfolding interpret
interpret_runs = refl
