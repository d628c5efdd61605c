-- ===== src/Setup/Passwords.antt =====
-- The made-up password, and the one that counts.
use esp.Base.{
  ℕ, zero, suc, ◌+◌, ◌%◌, ◌<◌, ◌≡◌, ◌≢◌, refl, none, some, [], ◌∷◌, ◌++◌, length, length-append,
  get_elem?, All, arith,
}
use esp.Strings.{StringApi, IsLawful}
use esp.Strings.LastField.{last_field}
use esp.Http.{Request, Files}
use esp.Auth.{Dictionary, eq_sign, forwards, middleware_auth}
use esp.Auth.Gate.{empty_password_opens}
use esp.Base.Bytes.{Text, text, c_str}
use esp.Setup.{alphabet, letter_at, append_letters, get_password, setup_password}

abbrev pub IsFrom : Text → Text → Type 0
IsFrom letters s = All (λ c. (i : ℕ) × (get_elem? letters i ≡ some c)) s

get_elem?-lt : (s : Text) (i : ℕ) → i < length s → (c : ℕ) × (get_elem? s i ≡ some c)
get_elem?-lt [] i h = elim h [ ]
get_elem?-lt (c ∷ s) zero h = (c, refl)
get_elem?-lt (c ∷ s) (suc i) h = get_elem?-lt s i (omega arith)

IsFrom-append :
    (letters s : Text) (c i : ℕ)
    → IsFrom letters s
    → get_elem? letters i ≡ some c
    → IsFrom letters (s ++ (c ∷ []))
IsFrom-append letters [] c i h e = ((i, e), tt)
IsFrom-append letters (x ∷ s) c i h e = (h.0, IsFrom-append letters s c i h.1 e)

append_letters_lem :
    (n : ℕ) (random : ℕ → ℕ) (acc : Text)
    → IsFrom alphabet acc
    → (length (append_letters n random acc) ≡ length acc + n)
      × IsFrom alphabet (append_letters n random acc)
unfolding append_letters
append_letters_lem zero random acc h = (omega arith, h)
append_letters_lem (suc n) random acc h =
    let i = random 0 % length alphabet in
    let (c, e) = get_elem?-lt alphabet i (omega arith) in
    let one : letter_at alphabet i ≡ c ∷ [] = rw (e, letter_at) in
    let rest =
      append_letters_lem n (λ k. random (suc k)) (acc ++ (c ∷ []))
        (IsFrom-append alphabet acc c i h e) in
    rw one (omega (arith, rest.0, length-append acc (c ∷ [])), rest.1)

-- Whatever numbers `esp_random` gives, the password that is made up has 32 letters, each of them one
-- of the alphabet: no index runs past it.
get_password_letters :
    (random : ℕ → ℕ) → (length (get_password random) ≡ 32) × IsFrom alphabet (get_password random)
unfolding get_password
get_password_letters random =
    let made = append_letters_lem 32 random [] tt in (omega (arith, made.0), made.1)

-- When the password file cannot be read, the made-up password is lost: after `setup` every request
-- that brings no known session gets every page but /admin.
pub missing_file_opens :
    (S : StringApi) (D : Dictionary) (files : Files) (random : ℕ → ℕ) (store : D.Store)
    (req : Request)
    → IsLawful S
    → files (text "/crypto/password.txt") ≡ []
    → D.lookup store (c_str (last_field S eq_sign (c_str (req.header (text "Cookie"))))) ≡ none
    → c_str req.request_string ≢ text "/admin"
    → middleware_auth S D files store (setup_password (get_password random) files) req ≡ forwards
unfolding setup_password
missing_file_opens S D files random store req L gone missing other =
    rw gone (empty_password_opens S D files store req L missing other)
