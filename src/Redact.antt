-- ===== src/Redact.antt =====
-- crates/swiftload-core/src/util/redact.rs: what is left of an address in the history and the logs.
-- What the `url` crate does with an address is an interface.
pub mod Secrets
mod Examples
use ai_gen.Prelude.{
  ℕ, Bool, true, false, Option, none, some, List, [], ◌∷◌, ◌++◌, map, if◌then◌else◌, length, Text,
}
use ai_gen.Prelude.Decimal.{show_u64}

pub record Urls (U : Type 0) : Type 0 where
  pub parse : Text → Option U
  pub set_username : U → Text → U
  pub set_password : U → Option Text → U
  pub set_fragment : U → Option Text → U
  pub query : U → Option Text
  pub set_query : U → Option Text → U
  pub query_pairs : U → List (Text × Text)
  -- `query_pairs_mut` with `clear` and one `append_pair` for each pair
  pub set_pairs : U → List (Text × Text) → U
  pub host_str : U → Option Text
  pub to_string : U → Text

-- "<redacted>"
abbrev pub placeholder : Text
placeholder = 60 ∷ 114 ∷ 101 ∷ 100 ∷ 97 ∷ 99 ∷ 116 ∷ 101 ∷ 100 ∷ 62 ∷ []

abbrev pub is_some : Option Text → Bool
is_some none = false
is_some (some t) = true

module _ {U : Type 0} ⦃urls : Urls U⦄ where
  -- Without the credentials and the fragment.
  abbrev pub stripped : U → U
  stripped u = urls.set_fragment (urls.set_password (urls.set_username u []) none) none

  abbrev pub without_values : U → List Text → U
  without_values u [] = if is_some (urls.query u) then urls.set_query u (some []) else u
  without_values u (n ∷ ns) = urls.set_pairs u (map (λ name. (name, placeholder)) (n ∷ ns))

  abbrev pub names_of : U → List Text
  names_of u = map (λ (p : Text × Text). p.0) (urls.query_pairs u)

abbrev pub redacted_of : {U : Type 0} ⦃urls : Urls U⦄ → U → Text
redacted_of ⦃urls⦄ u = urls.to_string (without_values (stripped u) (names_of (stripped u)))

-- "<unparseable url, {} chars>"
abbrev pub shape_of : Text → Text
shape_of raw =
    60
    ∷ 117
    ∷ 110
    ∷ 112
    ∷ 97
    ∷ 114
    ∷ 115
    ∷ 101
    ∷ 97
    ∷ 98
    ∷ 108
    ∷ 101
    ∷ 32
    ∷ 117
    ∷ 114
    ∷ 108
    ∷ 44
    ∷ 32
    ∷ (show_u64 (length raw) ++ 32 ∷ 99 ∷ 104 ∷ 97 ∷ 114 ∷ 115 ∷ 62 ∷ [])

unfoldable pub redact : {U : Type 0} → Urls U → Text → Text
redact urls raw = elim (urls.parse raw) [
  | none ↦ shape_of raw
  | some u ↦ redacted_of ⦃urls = urls⦄ u
]

-- "<unknown>"
abbrev pub unknown : Text
unknown = 60 ∷ 117 ∷ 110 ∷ 107 ∷ 110 ∷ 111 ∷ 119 ∷ 110 ∷ 62 ∷ []

abbrev pub host_or_unknown : Option Text → Text
host_or_unknown none = unknown
host_or_unknown (some h) = h

unfoldable pub host_of : {U : Type 0} → Urls U → Text → Text
host_of urls raw = elim (urls.parse raw) [
  | none ↦ unknown
  | some u ↦ host_or_unknown (urls.host_str u)
]
