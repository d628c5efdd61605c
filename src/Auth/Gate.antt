-- ===== src/Auth/Gate.antt =====
-- What the middleware lets through.
use esp.Base.{◌≡◌, ◌≢◌, subst, ◌↔◌, ◌⊎◌, inl, none, [], arith}
use esp.Base.Bytes.{Text, text, text_eq_iff, c_str, Absent}
use esp.Strings.{StringApi, IsLawful}
use esp.Strings.LastField.{last_field, last_field-Absent, Absent-last_field}
use esp.Http.{Request, Files}
use esp.Auth.{
  Dictionary, eq_sign, forwards, answers, log_out_page, refusal_page, presented, middleware_auth,
}

-- The three pages that need no password.
abbrev pub IsOpen : Text → Type 0
IsOpen path = (path ≡ text "/style.css") ⊎ (path ≡ text "/admin") ⊎ (path ≡ text "/update")

module _ (S : StringApi) (D : Dictionary) (files : Files) where
  abbrev pub IsAuthorised : D.Store → Text → Request → Type 0
  IsAuthorised store password req = presented S D files store req ≡ password

  -- A request reaches its handler exactly when it is authorised and asks for a page other than
  -- /admin, or asks for one of the three open pages without being authorised. An authorised request for
  -- /admin gets the log-out page, and every other request gets the log-in page with status 404.
  pub middleware_cases :
      (store : D.Store) (password : Text) (req : Request)
      → let path = c_str req.request_string in
        ((middleware_auth S D files store password req ≡ forwards) ↔ (
          (IsAuthorised store password req × (path ≢ text "/admin"))
          ⊎ ((¬ IsAuthorised store password req) × IsOpen path)))
        × (IsAuthorised store password req
            → path ≡ text "/admin"
            → middleware_auth S D files store password req ≡ answers (log_out_page S files))
        × ((¬ IsAuthorised store password req)
            → (¬ IsOpen path)
            → middleware_auth S D files store password req ≡ answers (refusal_page S files))
  unfolding middleware_auth
  middleware_cases store password req =
      let path = c_str req.request_string in
      ground (
        arith,
        text_eq_iff (presented S D files store req) password,
        text_eq_iff path (text "/style.css"),
        text_eq_iff path (text "/admin"),
        text_eq_iff path (text "/update"),
      )

  -- Nobody is authorised under a password that holds an equals sign, not even after logging in with
  -- it: what a session presents is cut at its last equals sign.
  pub password_with_eq_sign :
      (store : D.Store) (password : Text) (req : Request)
      → IsLawful S
      → ¬ Absent eq_sign password
      → ¬ IsAuthorised store password req
  unfolding presented
  password_with_eq_sign store password req L h e =
      h (subst (Absent eq_sign) e (Absent-last_field S L eq_sign _))

  -- Under an empty password every request that brings no known session is authorised, and so gets
  -- every page but /admin.
  pub empty_password_opens :
      (store : D.Store) (req : Request)
      → IsLawful S
      → D.lookup store (c_str (last_field S eq_sign (c_str (req.header (text "Cookie"))))) ≡ none
      → c_str req.request_string ≢ text "/admin"
      → middleware_auth S D files store [] req ≡ forwards
  empty_password_opens store req L missing other =
      (middleware_cases store [] req).0.1 (inl (unknown_presents_nothing, other))
    where
      unknown_presents_nothing : presented S D files store req ≡ []
      unknown_presents_nothing =
          unfold presented in rw (missing, presented) (last_field-Absent S L eq_sign [] tt)
