-- ===== src/Redact/Examples.antt =====
-- A small address: a base, and a query of one parameter behind a question mark.
use ai_gen.Prelude.{refl, Option, none, some, List, [], ◌∷◌, ◌++◌, Text, split_once}
use ai_gen.Redact.{Urls}
use ai_gen.Redact.Secrets.{Documented}

record Address : Type 0 where
  base : Text
  username : Text
  password : Option Text
  fragment : Option Text
  query : Option Text

abbrev address : Text → Option Text → Address
address base query = record {
  base = base;
  username = [];
  password = none;
  fragment = none;
  query = query;
}

abbrev read_address : Option (Text × Text) → Text → Address
read_address none raw = address raw none
read_address (some (base, query)) raw = address base (some query)

abbrev read_pairs : Option Text → List (Text × Text)
read_pairs none = []
read_pairs (some q) = elim (split_once 61 q) [ none ↦ (q, []) ∷ [] | some p ↦ p ∷ [] ]

abbrev form : List (Text × Text) → Text
form [] = []
form ((n, v) ∷ ps) = n ++ 61 ∷ (v ++ 38 ∷ form ps)

abbrev shown : Option Text → Text
shown none = []
shown (some t) = 63 ∷ t

abbrev urls : Urls Address
urls = record {
  parse = λ raw. some (read_address (split_once 63 raw) raw);
  set_username = λ u t. record u { username = t };
  set_password = λ u t. record u { password = t };
  set_fragment = λ u t. record u { fragment = t };
  query = λ u. u.query;
  set_query = λ u t. record u { query = t };
  query_pairs = λ u. read_pairs u.query;
  set_pairs = λ u ps. record u { query = some (form ps) };
  host_str = λ u. some u.base;
  to_string =
      λ u. u.base ++ (u.username ++ (shown u.password ++ (shown u.fragment ++ shown u.query)));
}

documented : Documented urls
documented = record {
  Rest = Text;
  rest = λ u. u.base;
  username = λ u. u.username;
  password = λ u. u.password;
  fragment = λ u. u.fragment;
  form = form;
  set_username = λ u t. (refl, refl, refl);
  set_password = λ u t. (refl, refl, refl, refl);
  set_fragment = λ u t. (refl, refl, refl, refl, refl);
  set_query = λ u t. (refl, refl, refl, refl, refl);
  set_pairs = λ u ps. refl;
  pairs = λ u v h i. read_pairs (h i);
  text = λ u v b n p f q i. b i ++ (n i ++ (shown (p i) ++ (shown (f i) ++ shown (q i))));
}
