-- ===== src/Auth.antt =====
-- Who may use the pages: `middlewareAuth`, `handleLogIn` and `handleAdmin` of src/main.cpp, with the
-- global PASSWORD and the session store. The key-value library and SHA-256 are not the
-- program's own, and enter as parameters.
pub mod Hex
pub mod Gate
pub mod Login
mod Examples
use esp.Base.{
  ℕ, suc, ◌+◌, ◌-◌, ◌*◌, ◌/◌, ◌%◌, ◌<◌, ◌≡◌, Bool, true, false, ◌&&◌, ◌||◌, Option, none, some,
  List, [], ◌∷◌, ◌++◌, ltb, if◌then◌else◌, length, All,
}
use esp.Base.Bytes.{Text, text, text_eq, c_str}
use esp.Strings.{StringApi}
use esp.Strings.LastField.{last_field}
use esp.Http.{
  Request, ResCall, set_header, set_status_code, println, Files, read_body, func_read_template,
}

-- `keyValueDatabase<String, String>`: reading a missing key sets an error flag, here `none`.
pub record Dictionary : Type 1 where
  pub Store : Type 0
  pub lookup : Store → Text → Option Text
  pub insert : Store → Text → Text → Store

pub record IsDictionary (D : Dictionary) : Type 0 where
  pub lookup-insert :
      (s : D.Store) (k j v : Text)
      → D.lookup (D.insert s k v) j ≡ (if text_eq j k then some v else D.lookup s j)

-- SHA-256 gives 32 bytes.
pub record IsDigest (sha256 : Text → List ℕ) : Type 0 where
  pub length-digest : (s : Text) → length (sha256 s) ≡ 32
  pub byte-digest : (s : Text) → All (λ b. b < 256) (sha256 s)

-- `sprintf("%02x", byte)`
unfoldable pub hex_digit : ℕ → ℕ
hex_digit n = if ltb n 10 then b'0' + n else b'a' + (n - 10)

unfoldable pub hex_byte : ℕ → Text
unfolding hex_digit
hex_byte b = hex_digit (b / 16) ∷ hex_digit (b % 16) ∷ []

-- The `std::accumulate` that appends each byte's two digits.
unfoldable pub hex_str : Text → List ℕ → Text
unfolding hex_byte
hex_str acc [] = acc
hex_str acc (b ∷ bytes) = hex_str (acc ++ hex_byte b) bytes

-- `hexStr`, the key under which a session is stored.
unfoldable pub session_key : (Text → List ℕ) → Text → Text
unfolding hex_str
session_key sha256 session = hex_str [] (sha256 session)

-- `next()` is called, or the middleware answers by itself.
pub data Verdict : Type 0 where
  forwards : Verdict
  answers : List ResCall → Verdict

abbrev pub eq_sign : ℕ
eq_sign = b'='

unfoldable pub log_out_page : StringApi → Files → List ResCall
log_out_page S files =
    set_header (text "Content-Type") (text "text/html")
    ∷ println (
        func_read_template S files (text "/templates/log_out.html")
          ((text "%LOGGED_IN%", text "logout") ∷ []))
    ∷ []

unfoldable pub refusal_page : StringApi → Files → List ResCall
refusal_page S files =
    set_status_code 404
    ∷ set_header (text "Content-Type") (text "text/html")
    ∷ println (
        func_read_template S files (text "/templates/admin.html") (
          (text "%LOGGED_IN%", text "login")
          ∷ (text "%ERROR%", text "You need to log in to access this page")
          ∷ []))
    ∷ []

abbrev pub or_empty : Option Text → Text
or_empty none = []
or_empty (some v) = v

module _ (S : StringApi) (D : Dictionary) (files : Files) where
  -- `user_password_trimmed`, which the request's cookie leads to.
  unfoldable pub presented : D.Store → Request → Text
  presented store req =
      let cookie = last_field S eq_sign (c_str (req.header (text "Cookie"))) in
      last_field S eq_sign (or_empty (D.lookup store (c_str cookie)))

  unfoldable pub middleware_auth : D.Store → Text → Request → Verdict
  unfolding presented
  middleware_auth store password req =
      let user_password_trimmed = presented store req in
      let req_str = c_str req.request_string in
      if text_eq user_password_trimmed password
        || text_eq req_str (text "/style.css")
        || text_eq req_str (text "/admin")
        || text_eq req_str (text "/update")
      then if text_eq user_password_trimmed password && text_eq req_str (text "/admin")
        then answers (log_out_page S files)
        else forwards
      else answers (refusal_page S files)

  module _ (sha256 : Text → List ℕ) where
    -- The new store and the response.
    unfoldable pub handle_log_in : D.Store → Text → Request → D.Store × List ResCall
    unfolding session_key
    handle_log_in store password req =
        let body = read_body [] req.chunks in
        let session = S.substring body 9 (length body) in
        let key = session_key sha256 session in
        let page =
          if text_eq session password
          then func_read_template S files (text "/templates/log_out.html")
              ((text "%LOGGED_IN%", text "login") ∷ [])
          else func_read_template S files (text "/templates/computers.html")
              ((text "%ERROR%", text "The provided password was incorrect") ∷ []) in
        (
          D.insert store (c_str key) session,
          set_header (text "Content-Type") (text "text/html")
              ∷ set_header (text "Set-Cookie")
                  (text "session=" ++ (c_str key ++ text "; Path=/; SameSite=Strict; Secure"))
              ∷ set_header (text "Content-Type") (text "text/html")
              ∷ println page
              ∷ [],
        )

unfoldable pub handle_admin : StringApi → Files → List ResCall
handle_admin S files =
    set_header (text "Content-Type") (text "text/html")
    ∷ println (
        func_read_template S files (text "/templates/admin.html")
          ((text "%ERROR%", []) ∷ (text "%LOGGED_IN%", text "login") ∷ []))
    ∷ []
