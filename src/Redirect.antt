-- ===== src/Redirect.antt =====
-- crates/swiftload-core/src/http/redirect.rs: the next address of a redirect. What the `url` crate does
-- with an address is an interface.
use ai_gen.Prelude.{
  ℕ, Bool, true, false, not, ◌&&◌, ◌||◌, Option, none, some, List, [], ◌∷◌, ◌==◌, if◌then◌else◌,
  Text, same_text, same_option,
}
use ai_gen.Prelude.Result.{Result, ok, err}

pub record Urls (U : Type 0) : Type 0 where
  pub parse : Text → Option U
  pub join : U → Text → Option U
  pub scheme : U → Text
  pub host_str : U → Option Text
  pub port_or_known_default : U → Option ℕ
  pub path_segments : U → Option (List Text)

pub data RedirectError : Type 0 where
  too_many : ℕ → RedirectError
  insecure_downgrade : RedirectError
  unsupported_scheme : Text → RedirectError
  malformed : RedirectError

-- "http" and "https"
abbrev pub http : Text
http = 104 ∷ 116 ∷ 116 ∷ 112 ∷ []

abbrev pub https : Text
https = 104 ∷ 116 ∷ 116 ∷ 112 ∷ 115 ∷ []

abbrev pub is_web : Text → Bool
is_web scheme = same_text scheme http || same_text scheme https

unfoldable pub checked_url : {U : Type 0} ⦃urls : Urls U⦄ → U → U → Bool → Result RedirectError U
checked_url ⦃urls⦄ current next allow_downgrade =
    let downgrade = same_text (urls.scheme current) https && same_text (urls.scheme next) http in
    if not (is_web (urls.scheme next))
    then err (unsupported_scheme (urls.scheme next))
    else if downgrade && not allow_downgrade
    then err insecure_downgrade
    else ok next

unfoldable pub checked_join :
    {U : Type 0} ⦃urls : Urls U⦄ → U → Option U → Bool → Result RedirectError U
unfolding checked_url
checked_join current none allow_downgrade = err malformed
checked_join current (some next) allow_downgrade = checked_url current next allow_downgrade

unfoldable pub next_url : {U : Type 0} ⦃urls : Urls U⦄ → U → Text → Bool → Result RedirectError U
unfolding checked_join
next_url ⦃urls⦄ current location allow_downgrade =
    checked_join current (urls.join current location) allow_downgrade

abbrev pub same_number : Option ℕ → Option ℕ → Bool
same_number none none = true
same_number (some a) (some b) = a == b
same_number _ _ = false

unfoldable pub is_cross_origin : {U : Type 0} ⦃urls : Urls U⦄ → U → U → Bool
is_cross_origin ⦃urls⦄ from to =
    not (same_text (urls.scheme from) (urls.scheme to))
    || not (same_option (urls.host_str from) (urls.host_str to))
    || not (same_number (urls.port_or_known_default from) (urls.port_or_known_default to))
