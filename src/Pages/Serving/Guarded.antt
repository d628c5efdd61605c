-- ===== src/Pages/Serving/Guarded.antt =====
-- What a visitor without the password can change through the pages.
use esp.Base.{◌≢◌, length, All, Bool-cases, ℕ, ◌≡◌, ◌⊎◌, refl, inl, inr, ap, List, [], ◌∷◌}
use esp.Base.Bytes.{Text, text, text_eq, c_str}
use esp.Strings.{StringApi}
use esp.Http.{Request, Files, read_body}
use esp.Strings.LastField.{last_field}
use esp.Auth.{
  Dictionary, middleware_auth, forwards, answers, Verdict, handle_log_in, IsDictionary, presented,
  or_empty, eq_sign, session_key,
}
use esp.Auth.Gate.{IsAuthorised}
use esp.Pages.{Handler, not_found, Method, websocket, Route, routes}
use esp.Pages.Routes.{IsResolver, IsPublic, unauthorised_handlers}
use esp.Pages.Serving.{Site, Moment, handle, serve, pass, server_task, register_nodes}

-- A request, with what it finds.
pub record Visit : Type 0 where
  pub moment : Moment
  pub method : Method
  pub req : Request

module _ (S : StringApi) (D : Dictionary) (files : Files) (sha256 : Text → List ℕ)
    (urldecode : Text → Text) (resolve : List Route → Handler → Method → Text → Handler) where
  -- The session that `handleLogIn` makes of the request.
  abbrev pub with_session : Request → Site D → Site D
  with_session req w = record w {
    store = (handle_log_in S D files sha256 w.store w.password req).0;
  }

  public_changes :
      (h : Handler) (t : Moment) (req : Request) (w : Site D)
      → IsPublic h
      → let v = (handle S D files sha256 urldecode h t req w).0 in
        (v ≡ w) ⊎ (v ≡ with_session req w)
  unfolding handle
  public_changes h t req w (inl e) = rw e (inl refl)
  public_changes h t req w (inr (inl e)) = rw e (inl refl)
  public_changes h t req w (inr (inr (inl e))) = rw e (inr refl)
  public_changes h t req w (inr (inr (inr e))) = rw e (inl refl)

  serve_changes :
      (h : Handler) (t : Moment) (req : Request) (w : Site D) (verdict : Verdict)
      → (verdict ≡ forwards → IsPublic h)
      → let v =
          (pass S D files sha256 urldecode verdict
            (handle S D files sha256 urldecode h t req w)
            w).0 in
        (v ≡ w) ⊎ (v ≡ with_session req w)
  serve_changes h t req w forwards p = public_changes h t req w (p refl)
  serve_changes h t req w (answers calls) p = inl refl

  -- A request that is not authorised leaves all globals, pins, the fan's duty and the file for
  -- an upload as they were. It at most stores the session that it posted, if the server chooses a
  -- node that was registered for the path and the method, or the default one.
  unauthorised_changes_nothing :
      (t : Moment) (method : Method) (req : Request) (w : Site D)
      → IsResolver resolve
      → method ≢ websocket
      → ¬ IsAuthorised S D files w.store w.password req
      → let v = (serve S D files sha256 urldecode resolve t method req w).0 in
        (v ≡ w) ⊎ (v ≡ with_session req w)
  unfolding serve server_task routes register_nodes
  unauthorised_changes_nothing t method req w R page u =
      serve_changes (resolve routes not_found method (c_str req.request_string)) t req w
        (middleware_auth S D files w.store w.password req)
        (unauthorised_handlers S D files resolve w.store w.password req method R u)

  -- What the form brought, cut as it is for the comparison with the password.
  abbrev pub guess : Request → Text
  guess req =
      let body = read_body [] req.chunks in last_field S eq_sign (S.substring body 9 (length body))

  -- No session presents the password, a session that was never made included.
  abbrev pub IsClean : D.Store → Text → Type 0
  IsClean store password =
      (key : Text) → last_field S eq_sign (or_empty (D.lookup store key)) ≢ password

  IsClean-denies :
      (store : D.Store) (password : Text) (req : Request)
      → IsClean store password
      → ¬ IsAuthorised S D files store password req
  unfolding presented
  IsClean-denies store password req clean =
      clean (c_str (last_field S eq_sign (c_str (req.header (text "Cookie")))))

  session-IsClean :
      (req : Request) (w : Site D)
      → IsDictionary D
      → IsClean w.store w.password
      → guess req ≢ w.password
      → IsClean (with_session req w).store w.password
  unfolding handle_log_in
  session-IsClean req w I clean wrong key =
      let body = read_body [] req.chunks in
      let session = S.substring body 9 (length body) in
      let made = c_str (session_key sha256 session) in
      rw (I.lookup-insert w.store made key session)
        (elim (Bool-cases (text_eq key made)) [ inl e ↦ rw e wrong | inr e ↦ rw e (clean key) ])

  -- The requests of a visitor, with what each finds.
  unfoldable pub serve_all : List Visit → Site D → Site D
  serve_all [] w = w
  serve_all (v ∷ vs) w =
      serve_all vs (serve S D files sha256 urldecode resolve v.moment v.method v.req w).0

  -- A request for a page that, if it is a log-in, brings a wrong password.
  abbrev pub IsWrong : Text → Visit → Type 0
  IsWrong password v = (v.method ≢ websocket) × (guess v.req ≢ password)

  -- Visitors who do not know the password change nothing through the pages: after any requests for pages none
  -- of which posts it, all globals, pins, the fan's duty and the file for an upload are as they were, and
  -- only the sessions may differ, none of which presents the password either. At first no session does,
  -- and the server chooses a node that was registered for the path and the method, or the default one.
  pub guesses_change_nothing :
      (visits : List Visit) (w : Site D)
      → IsResolver resolve
      → IsDictionary D
      → IsClean w.store w.password
      → All (IsWrong w.password) visits
      → let v = serve_all visits w in
        (record v { store = w.store } ≡ w) × IsClean v.store w.password
  unfolding serve_all
  guesses_change_nothing [] w R I clean wrong = (refl, clean)
  guesses_change_nothing (v ∷ vs) w R I clean wrong =
      elim (unauthorised_changes_nothing v.moment v.method v.req w R wrong.0.0
        (IsClean-denies w.store w.password v.req clean)) [
          | inl e ↦ rw (e, serve_all) (guesses_change_nothing vs w R I clean wrong.1)
          | inr e ↦
              let made = with_session v.req w in
              let (same, still) =
                guesses_change_nothing vs made R I (session-IsClean v.req w I clean wrong.0.1)
                  wrong.1 in
              rw (e, serve_all) (ap (λ (u : Site D). record u { store = w.store }) same, still)
        ]
