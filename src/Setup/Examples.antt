-- ===== src/Setup/Examples.antt =====
-- A settings file, a password and the theorems about them.
use esp.Base.{ℕ, ◌*◌, ◌≡◌, refl, none, List, [], ◌∷◌, map, All, arith}
use esp.Base.Bytes.{text, c_str}
use esp.Strings.Reference.{reference, reference-IsLawful}
use esp.Http.{Request, Files}
use esp.Auth.{Dictionary, forwards, middleware_auth}
use esp.Setup.{Host, read_hosts, get_password, setup_password}
use esp.Setup.Passwords.{missing_file_opens}
use esp.Setup.Hosts.{Line, blank, entry, IsLine, print_line, read_hosts-print}

abbrev pi : Host
pi = record { host = text "10.0.0.7"; user = text "alext"; password = text "a,b" }

abbrev lines : List Line
lines = blank (13 ∷ []) ∷ entry [] pi (13 ∷ []) ∷ []

read_hosts-print_example : read_hosts reference [] (map print_line lines) ≡ pi ∷ []
read_hosts-print_example = read_hosts-print reference reference-IsLawful [] lines lines_well_formed
  where
    lines_well_formed : All IsLine lines
    lines_well_formed = omega arith

counting : ℕ → ℕ
counting i = i * 7919

abbrev nothing_stored : Dictionary
nothing_stored = record { Store = Unit {0}; lookup = λ s k. none; insert = λ s k v. s }

abbrev no_files : Files
no_files path = []

abbrev stranger : Request
stranger = record { header = λ name. []; request_string = text "/toggle1"; chunks = [] }

missing_file_opens_example :
    middleware_auth reference nothing_stored no_files tt
      (setup_password (get_password counting) no_files)
      stranger
    ≡ forwards
unfolding c_str
missing_file_opens_example =
    missing_file_opens reference nothing_stored no_files counting tt stranger reference-IsLawful
      refl refl (λ e. cc)
