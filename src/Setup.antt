-- ===== src/Setup.antt =====
-- What `setup` of src/main.cpp reads: the hosts of /data/ssh_settings.csv and the password, and the
-- password that `getPassword` makes up at start. The random numbers of `esp_random` and
-- the lines that `readStringUntil('\n')` returns are arguments.
pub mod Passwords
pub mod Hosts
mod Examples
use esp.Base.{
  ℕ, zero, suc, ◌+◌, ◌-◌, ◌%◌, ◌^◌, Bool, true, false, Option, none, some, List, [], ◌∷◌, ◌++◌,
  length, get_elem?, ◌==◌, if◌then◌else◌,
}
use esp.Base.Bytes.{Text, text, c_str}
use esp.Strings.{StringApi, next_index, unsigned_index}
use esp.Http.{Files}

abbrev pub alphabet : Text
alphabet = text "abcdefghijklmnopqrstuvwxyzABCDEFGHIJKLMNOPQRSTUVWXYZ0123456789]X}7:)[Z2T;l58-P6({+"

abbrev pub letter_at : Text → ℕ → Text
letter_at letters i = elim (get_elem? letters i) [ none ↦ [] | some c ↦ c ∷ [] ]

-- `text += alphabet[esp_random() % alphabetSize]`, so many times; `random` gives the next number.
unfoldable pub append_letters : ℕ → (ℕ → ℕ) → Text → Text
append_letters zero random acc = acc
append_letters (suc n) random acc =
    append_letters n (λ i. random (suc i)) (acc ++ letter_at alphabet (random 0 % length alphabet))

unfoldable pub get_password : (ℕ → ℕ) → Text
unfolding append_letters
get_password random = append_letters 32 random []

-- The assignment to PASSWORD in `setup`, from the value that it had. A file that is not there reads
-- as the empty text.
unfoldable pub setup_password : Text → Files → Text
setup_password password files = files (text "/crypto/password.txt")

-- The constructor arguments of an `ssh_conn`.
pub record Host : Type 0 where
  pub host : Text
  pub user : Text
  pub password : Text

-- The part of the loop's body behind the test for an empty line.
unfoldable pub split_line : StringApi → Text → Host
split_line S line =
    let first_comma = S.index_of line b',' 0 in
    let second_comma = S.index_of line b',' (next_index first_comma) in
    record {
      host = c_str (S.trim (S.substring line 0 (unsigned_index first_comma)));
      user =
          c_str (S.trim (S.substring line (next_index first_comma) (unsigned_index second_comma)));
      password = c_str (S.trim (S.substring line (next_index second_comma) (length line)));
    }

-- `ssh_servers.push_back` for each line that is not blank.
unfoldable pub read_hosts : StringApi → List Host → List Text → List Host
unfolding split_line
read_hosts S ssh_servers [] = ssh_servers
read_hosts S ssh_servers (raw ∷ lines) =
    let line = S.trim raw in
    read_hosts S (if length line == 0 then ssh_servers else ssh_servers ++ (split_line S line ∷ []))
      lines
