-- ===== src/Config/Sample.antt =====
-- URLs that are nothing but their query, printed with a 0 after each key and each value.
use app_home_services.Base.{
  ◌+◌, ◌-◌, ◌≡◌, refl, ap, ◌∙◌, none, some, List, [], ◌∷◌, ◌++◌, map, arith,
}
use app_home_services.Base.Text.{Text, text, split}
use app_home_services.Config.DatabaseUrl.{Urls, domain, Strings, to_ascii_lowercase}

abbrev pub Pairs : Type 0
Pairs = List (Text × Text)

abbrev pub shift : Text → Text
shift = map (λ c. c + 1)

abbrev pub unshift : Text → Text
unshift = map (λ c. c - 1)

abbrev pub print : Pairs → Text
print [] = []
print ((k, v) ∷ ps) = shift k ++ (0 ∷ (shift v ++ (0 ∷ print ps)))

abbrev pub pairs_of : List Text → Pairs
pairs_of [] = []
pairs_of (k ∷ []) = []
pairs_of (k ∷ (v ∷ rest)) = (unshift k, unshift v) ∷ pairs_of rest

abbrev pub read : Text → Pairs
read s = pairs_of (split 0 s)

unshift-shift : (s : Text) → unshift (shift s) ≡ s
unshift-shift [] = refl
unshift-shift (c ∷ s) = ground (arith, unshift-shift s)

split-shift : (k s : Text) → split 0 (shift k ++ (0 ∷ s)) ≡ shift k ∷ split 0 s
split-shift [] s = refl
split-shift (c ∷ k) s = ground (arith, split-shift k s)

pub read-print : (ps : Pairs) → read (print ps) ≡ ps
read-print [] = refl
read-print ((k, v) ∷ ps) =
    ap pairs_of
      (split-shift k (shift v ++ (0 ∷ print ps)) ∙ ap (λ r. shift k ∷ r) (split-shift v (print ps)))
    ∙ rw (unshift-shift k, unshift-shift v) (ap (λ rest. (k, v) ∷ rest) (read-print ps))

abbrev pub query_urls : Urls
query_urls = record {
  Url = Pairs;
  parse = λ s. some (read s);
  query_pairs = λ ps. ps;
  set_query_pairs = λ ps _. ps;
  host = λ _. some (domain (text "db.example.com"));
  to_string = print;
  parse-to_string = λ ps. ap some (read-print ps);
  query_pairs-set_query_pairs = λ ps _. refl;
  host-set_query_pairs = λ _ _. refl;
}

abbrev pub ascii : Strings
ascii = record { to_lowercase = to_ascii_lowercase; parse_ip = λ _. none }
