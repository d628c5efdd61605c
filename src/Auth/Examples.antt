-- ===== src/Auth/Examples.antt =====
-- A store and a digest that meet the hypotheses, and the theorems at concrete requests.
use esp.Base.{
  ℕ, ◌%◌, ◌≡◌, ◌≢◌, refl, ◌↔◌, ◌⊎◌, Option, none, some, List, [], ◌∷◌, ◌++◌, length, replicate,
  if◌then◌else◌,
}
use esp.Base.Bytes.{Text, text, text_eq, c_str}
use esp.Strings.Reference.{reference, reference-IsLawful}
use esp.Http.{Request, Files}
use esp.Auth.{
  Dictionary, forwards, answers, refusal_page, log_out_page, middleware_auth, session_key, hex_str,
}
use esp.Auth.Gate.{IsAuthorised, IsOpen, middleware_cases, password_with_eq_sign}

find : List (Text × Text) → Text → Option Text
find [] k = none
find ((j, v) ∷ rest) k = if text_eq k j then some v else find rest k

abbrev table : Dictionary
table = record {
  Store = List (Text × Text);
  lookup = λ s k. find s k;
  insert = λ s k v. (k, v) ∷ s;
}

-- Not a good digest, but one of 32 bytes.
toy_digest : Text → List ℕ
toy_digest s = replicate 32 (length s % 256)

abbrev files : Files
files path = []

abbrev password : Text
password = text "hunter2"

-- The form's body arrives in two parts.
abbrev form : Request
form = record {
  header = λ name. [];
  request_string = text "/admin";
  chunks = text "password=hun" ∷ text "ter2" ∷ [];
}

key : Text
key = session_key toy_digest password

abbrev with_cookie : Text → Request
with_cookie cookie = record {
  header = λ name. cookie;
  request_string = text "/terminal";
  chunks = [];
}

after_login : Request
unfolding key
after_login = with_cookie (text "session=" ++ key)

printed : hex_str [] (0 ∷ 171 ∷ []) ≡ text "00ab"
unfolding hex_str
printed = refl

-- A typed-in password that is wrong.
abbrev wrong_form : Request
wrong_form = record form { chunks = text "password=guess" ∷ [] }

abbrev wrong_after : Request
wrong_after = with_cookie (text "session=" ++ session_key toy_digest (text "guess"))

middleware_cases_example :
    ((middleware_auth reference table files [] password after_login ≡ forwards) ↔ (
      (IsAuthorised reference table files [] password after_login
        × (c_str after_login.request_string ≢ text "/admin"))
      ⊎ ((¬ IsAuthorised reference table files [] password after_login)
          × IsOpen (c_str after_login.request_string))))
    × (IsAuthorised reference table files [] password after_login
        → c_str after_login.request_string ≡ text "/admin"
        → middleware_auth reference table files [] password after_login
          ≡ answers (log_out_page reference files))
    × ((¬ IsAuthorised reference table files [] password after_login)
        → (¬ IsOpen (c_str after_login.request_string))
        → middleware_auth reference table files [] password after_login
          ≡ answers (refusal_page reference files))
middleware_cases_example = middleware_cases reference table files [] password after_login

password_with_eq_sign_example : ¬ IsAuthorised reference table files [] (text "a=b") after_login
password_with_eq_sign_example =
    password_with_eq_sign reference table files [] (text "a=b") after_login reference-IsLawful
      (λ a. a.1.0 refl)
