-- ===== src/Auth/Login.antt =====
-- What logging in does to later requests.
use esp.Base.{ℕ, ◌≡◌, ◌≢◌, refl, List, [], length}
use esp.Base.Bytes.{Text, text, text_eq_ne, c_str, c_str-Absent, Absent}
use esp.Strings.{StringApi, IsLawful}
use esp.Strings.LastField.{last_field}
use esp.Http.{Request, Files, read_body}
use esp.Auth.{
  Dictionary, IsDictionary, IsDigest, eq_sign, middleware_auth, session_key, handle_log_in,
}
use esp.Auth.Hex.{hex_str_roundtrip}

module _ (S : StringApi) (D : Dictionary) (files : Files) (sha256 : Text → List ℕ) (L : IsLawful S)
    (I : IsDictionary D) (H : IsDigest sha256) where
  -- What `handleLogIn` takes for the password that was typed in.
  abbrev pub posted : Request → Text
  posted req = let body = read_body [] req.chunks in S.substring body 9 (length body)

  abbrev pub logged_in : D.Store → Text → Request → D.Store
  logged_in store password login = (handle_log_in S D files sha256 store password login).0

  key_plain :
      (session : Text)
      → Absent 0 (session_key sha256 session) × Absent eq_sign (session_key sha256 session)
  unfolding session_key
  key_plain session =
      let printed = hex_str_roundtrip (sha256 session) (H.byte-digest session) in
      (printed.2, printed.3)

  -- A log-in changes nothing for a request whose cookie leads to another key.
  log_in_keeps_others :
      (store : D.Store) (password : Text) (login req : Request)
      → c_str (last_field S eq_sign (c_str (req.header (text "Cookie"))))
        ≢ session_key sha256 (posted login)
      → middleware_auth S D files (logged_in store password login) password req
        ≡ middleware_auth S D files store password req
  unfolding middleware_auth handle_log_in
  log_in_keeps_others store password login req other =
      let k = session_key sha256 (posted login) in
      let token = c_str (last_field S eq_sign (c_str (req.header (text "Cookie")))) in
      rw
        (
          c_str-Absent k (key_plain (posted login)).0,
          middleware_auth,
          I.lookup-insert store k token (posted login),
          text_eq_ne token k other,
        )
        refl
