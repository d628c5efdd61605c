-- ===== src/Ssh/Login.antt =====
-- `authenticate_console` and `connect_ssh` of src/ssh_functions.cpp. The password is the buffer that
-- the caller's pointer leads to, without its terminating zero byte; it is returned as it was left.
pub mod Resources
pub mod Retries
pub mod Ends
use esp.Base.{
  ℕ, zero, suc, ◌+◌, ◌/◌, ◌%◌, Bool, true, false, not, Option, none, some, List, [], ◌∷◌, ◌++◌,
  length, drop, replicate, ◌==◌, ltb, if◌then◌else◌,
}
use esp.Base.Bytes.{Text, c_str}
use esp.Base.Int.{ℤ, pos, negsuc, int_eq, is_negative, to_uint32}
use esp.Ssh.{
  Call, ssh_new, ssh_options_set_user, ssh_options_set_host, ssh_options_set_log_verbosity,
  ssh_connect, ssh_disconnect, ssh_free, ssh_userauth_none, ssh_userauth_list, ssh_userauth_gssapi,
  ssh_userauth_password, ssh_get_issue_banner, Libssh, M, Outcome, out_of_fuel, undefined, done,
  continue, ◌>>=◌, ◌>>◌, pure, fault, tell, ask, test, create, ssh_string_free_char,
}

abbrev pub ssh_auth_success : ℤ
ssh_auth_success = pos 0

abbrev pub ssh_auth_error : ℤ
ssh_auth_error = negsuc 0

-- `method & SSH_AUTH_METHOD_GSSAPI_MIC`
unfoldable pub offers_gssapi : ℤ → Bool
offers_gssapi method = to_uint32 method / 32 % 2 == 1

-- `method & SSH_AUTH_METHOD_PASSWORD`
unfoldable pub offers_password : ℤ → Bool
offers_password method = to_uint32 method / 2 % 2 == 1

-- `memset(password, 0, sizeof(password))`: `password` is a pointer of four bytes, so four bytes
-- are cleared. That is out of bounds in a buffer that holds fewer than three and the end.
abbrev pub zero_four : Text → Text
zero_four password = 0 ∷ 0 ∷ 0 ∷ zero_head (drop 3 password)
  where
    zero_head : Text → Text
    zero_head [] = []
    zero_head (_ ∷ rest) = 0 ∷ rest

unfoldable pub clear_password : Text → M Text
clear_password password = if ltb (length password) 3 then fault else pure (zero_four password)

-- The end of a turn: `break`, `return` or the next turn with its `rc`.
pub data Ending : Type 0 where
  breaks returns_error : Ending
  again : ℤ → Ending

-- What the code makes of one method's `rc`.
abbrev pub judge : ℤ → Ending
judge rc =
    if int_eq rc ssh_auth_error
    then returns_error
    else if int_eq rc ssh_auth_success
    then breaks
    else again rc

-- Where a turn leads: out of the loop, out of the function, or into the next turn.
abbrev pub settle : (ℤ → Text → M (ℤ × Text)) → Ending → Text → M (ℤ × Text)
settle next breaks left = pure (ssh_auth_success, left)
settle next returns_error left = pure (ssh_auth_error, left)
settle next (again rc) left = next rc left

module _ (E : Libssh) where
  -- The first branch of the loop; the `rc` of before is kept if the method is not offered.
  unfoldable pub try_gssapi : ℕ → ℤ → ℤ → M Ending
  unfolding offers_gssapi
  try_gssapi session method rc =
      if offers_gssapi method
      then (ask E (ssh_userauth_gssapi session) >>= λ rc. pure (judge rc))
      else pure (again rc)

  unfoldable pub try_password : ℕ → ℤ → Text → ℤ → M Ending
  unfolding offers_password
  try_password session method password rc =
      if offers_password method
      then (ask E (ssh_userauth_password session (c_str password)) >>= λ rc. pure (judge rc))
      else pure (again rc)

  -- The body of the loop. The buffer is cleared only at its end.
  unfoldable pub auth_turn : ℕ → ℤ → ℤ → Text → M (Ending × Text)
  unfolding try_gssapi try_password clear_password
  auth_turn session method rc password = try_gssapi session method rc >>= elim [
    | breaks ↦ pure (breaks, password)
    | returns_error ↦ pure (returns_error, password)
    | again rc ↦ try_password session method password rc >>= elim [
      | breaks ↦ pure (breaks, password)
      | returns_error ↦ pure (returns_error, password)
      | again rc ↦ clear_password password >>= λ cleared. pure (again rc, cleared)
    ]
  ]

  -- `while (rc != SSH_AUTH_SUCCESS)`: the `rc` behind the loop, or that of the `return` in it.
  unfoldable pub auth_loop : ℕ → ℕ → ℤ → ℤ → Text → M (ℤ × Text)
  unfolding auth_turn
  auth_loop zero session method rc password log = out_of_fuel
  auth_loop (suc fuel) session method rc password log = elim (int_eq rc ssh_auth_success) [
    | true ↦ done (ssh_auth_success, password) log
    | false ↦
        continue (auth_turn session method rc password log)
          λ (ending, left). settle (auth_loop fuel session method) ending left
  ]

  -- The lines behind the loop.
  unfoldable pub show_banner : ℕ → M (Unit {0})
  show_banner session = do
    banner ← test E (ssh_get_issue_banner session)
    if banner then tell E (ssh_string_free_char session) else pure tt

  unfoldable pub authenticate_console : ℕ → ℕ → Text → M (ℤ × Text)
  unfolding auth_loop show_banner
  authenticate_console fuel session password = do
    rc ← ask E (ssh_userauth_none session)
    if int_eq rc ssh_auth_error then pure (rc, password) else (do
      method ← ask E (ssh_userauth_list session)
      (rc, left) ← auth_loop fuel session method rc password
      if int_eq rc ssh_auth_error
          then pure (rc, left)
          else (show_banner session >> pure (rc, left)))

  -- The calls that end a session which is not returned.
  unfoldable pub give_up : ℕ → M (Unit {0})
  give_up session = tell E (ssh_disconnect session) >> tell E (ssh_free session)

  unfoldable pub connect_session : ℕ → ℕ → Text → M (Option ℕ × Text)
  unfolding authenticate_console give_up
  connect_session fuel session password = do
    rc ← ask E (ssh_connect session)
    if int_eq rc (pos 0)
        then (do
          (auth, left) ← authenticate_console fuel session password
          if int_eq auth ssh_auth_success
              then pure (some session, left)
              else (give_up session >> pure (none, left)))
        else (give_up session >> pure (none, password))

  -- Setting an option fails with a negative result; then the session is freed.
  unfoldable pub set_user : ℕ → Option Text → M Bool
  set_user session none = pure true
  set_user session (some user) = do
    rc ← ask E (ssh_options_set_user session user)
    if is_negative rc then (tell E (ssh_free session) >> pure false) else pure true

  unfoldable pub set_host : ℕ → Text → M Bool
  set_host session host = do
    rc ← ask E (ssh_options_set_host session host)
    if is_negative rc then (tell E (ssh_free session) >> pure false) else pure true

  unfoldable pub connect_ssh : ℕ → Text → Text → Option Text → ℤ → M (Option ℕ × Text)
  unfolding set_user set_host
  connect_ssh fuel password host user verbosity = create E ssh_new >>= elim [
    | none ↦ pure (none, password)
    | some session ↦ do
      user_set ← set_user session user
      if user_set
          then (do
            host_set ← set_host session host
            if host_set
                then (do
                  _ ← ask E (ssh_options_set_log_verbosity session verbosity)
                  connect_session fuel session password)
                else pure (none, password))
          else pure (none, password)
  ]
