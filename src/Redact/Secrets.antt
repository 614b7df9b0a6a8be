-- ===== src/Redact/Secrets.antt =====
-- What a redacted address can tell: two addresses that differ in secrets only are redacted to one text.
use ai_gen.Prelude.{◌≡◌, Option, some, List, Text}
use ai_gen.Redact.{Urls}

-- What the documentation of the `url` crate says: an address has a username, a password, a query and a
-- fragment, and the rest; each setter changes its part only; the pairs are read from the query; and
-- the parts and the rest make up the text.
pub record Documented {U : Type 0} (urls : Urls U) : Type 1 where
  pub Rest : Type 0
  pub rest : U → Rest
  pub username : U → Text
  pub password : U → Option Text
  pub fragment : U → Option Text
  pub form : List (Text × Text) → Text
  pub set_username :
      (u : U) (t : Text)
      → (rest (urls.set_username u t) ≡ rest u)
        × (username (urls.set_username u t) ≡ t)
        × (urls.query (urls.set_username u t) ≡ urls.query u)
  pub set_password :
      (u : U) (t : Option Text)
      → (rest (urls.set_password u t) ≡ rest u)
        × (username (urls.set_password u t) ≡ username u)
        × (password (urls.set_password u t) ≡ t)
        × (urls.query (urls.set_password u t) ≡ urls.query u)
  pub set_fragment :
      (u : U) (t : Option Text)
      → (rest (urls.set_fragment u t) ≡ rest u)
        × (username (urls.set_fragment u t) ≡ username u)
        × (password (urls.set_fragment u t) ≡ password u)
        × (fragment (urls.set_fragment u t) ≡ t)
        × (urls.query (urls.set_fragment u t) ≡ urls.query u)
  pub set_query :
      (u : U) (t : Option Text)
      → (rest (urls.set_query u t) ≡ rest u)
        × (username (urls.set_query u t) ≡ username u)
        × (password (urls.set_query u t) ≡ password u)
        × (fragment (urls.set_query u t) ≡ fragment u)
        × (urls.query (urls.set_query u t) ≡ t)
  pub set_pairs :
      (u : U) (ps : List (Text × Text)) → urls.set_pairs u ps ≡ urls.set_query u (some (form ps))
  pub pairs : (u v : U) → urls.query u ≡ urls.query v → urls.query_pairs u ≡ urls.query_pairs v
  pub text :
      (u v : U)
      → rest u ≡ rest v
      → username u ≡ username v
      → password u ≡ password v
      → fragment u ≡ fragment v
      → urls.query u ≡ urls.query v
      → urls.to_string u ≡ urls.to_string v
