-- ===== src/Ssh/Conn.antt =====
-- The class `ssh_conn` of src/main.cpp, but for `read`, `exec_cmd` and the transfers. The constructor
-- leaves `channel` and `session` without a value, and using such a pointer is undefined.
pub mod Ownership
pub mod Delivery
use esp.Base.{
  ℕ, zero, suc, ◌+◌, ◌-◌, ◌%◌, ◌^◌, Bool, true, false, not, ◌&&◌, Option, none, some, List, [], ◌∷◌,
  ◌++◌, map, ltb, if◌then◌else◌,
}
use esp.Base.Bytes.{Text, text, c_str}
use esp.Base.Int.{ℤ, pos, negsuc, int_eq, is_positive}
use esp.Strings.{StringApi}
use esp.Clients.{Registry, ssh_broadcast}
use esp.Ssh.{
  Call, libssh_begin, ssh_finalize, ssh_disconnect, ssh_free, ssh_is_connected, ssh_send_ignore,
  ssh_channel_new, ssh_channel_open_session, ssh_channel_request_pty, ssh_channel_request_shell,
  ssh_channel_change_pty_size, ssh_channel_request_exec, ssh_channel_write,
  ssh_channel_read_nonblocking, ssh_channel_is_open, ssh_channel_is_eof, ssh_channel_close,
  ssh_channel_free, Libssh, M, Outcome, done, undefined, out_of_fuel, continue, ◌>>=◌, ◌>>◌, pure,
  fault, tell, ask, test, receive, clock, create,
}
use esp.Ssh.Login.{connect_ssh}

pub data Pointer : Type 0 where
  uninitialised null : Pointer
  at : ℕ → Pointer

-- The private members, and `conn`.
pub record Conn : Type 0 where
  pub host : Text
  pub user : Text
  pub password : Text
  pub channel : Pointer
  pub session : Pointer
  pub conn : Bool

-- The constructor.
unfoldable pub ssh_conn : Text → Text → Text → Conn
ssh_conn host user password = record {
  host = host;
  user = user;
  password = password;
  channel = uninitialised;
  session = uninitialised;
  conn = false;
}

-- The argument that a pointer makes.
abbrev pub load : Pointer → M ℕ
load uninitialised = fault
load null = pure 0
load (at p) = pure p

abbrev pub ssh_ok : ℤ
ssh_ok = pos 0

abbrev pub ssh_error : ℤ
ssh_error = negsuc 0

abbrev pub to_pointer : Option ℕ → Pointer
to_pointer none = null
to_pointer (some p) = at p

abbrev pub ssh_single_exec_timeout : ℕ
ssh_single_exec_timeout = 10000

-- `connect() != NULL`
abbrev pub is_set : Pointer → Bool
is_set uninitialised = false
is_set null = false
is_set (at p) = true

module _ (E : Libssh) where
  -- The two halves of `brutal_exception`.
  unfoldable pub drop_channel : Pointer → M Pointer
  drop_channel uninitialised = fault
  drop_channel null = pure null
  drop_channel (at c) = do
    is_open ← test E (ssh_channel_is_open c)
    (if is_open then tell E (ssh_channel_close c) else pure tt)
    tell E (ssh_channel_free c)
    pure null

  unfoldable pub drop_session : Pointer → M Pointer
  drop_session uninitialised = fault
  drop_session null = pure null
  drop_session (at s) = do
    is_connected ← test E (ssh_is_connected s)
    (if is_connected then tell E (ssh_disconnect s) else pure tt)
    tell E (ssh_free s)
    tell E ssh_finalize
    pure null

  unfoldable pub brutal_exception : Conn → M Conn
  unfolding drop_channel drop_session
  brutal_exception this = do
    channel ← drop_channel this.channel
    session ← drop_session this.session
    pure (record this { channel = channel; session = session })

  -- The four requests on a new channel, each only if the one before succeeded.
  unfoldable pub open_steps : ℕ → M Bool
  open_steps c = do
    opened ← ask E (ssh_channel_open_session c)
    if not (int_eq opened ssh_ok) then pure false else (do
      pty ← ask E (ssh_channel_request_pty c)
      if not (int_eq pty ssh_ok) then pure false else (do
        resized ← ask E (ssh_channel_change_pty_size c 100 30)
        if not (int_eq resized ssh_ok)
            then pure false
            else (do shell ← ask E (ssh_channel_request_shell c); pure (int_eq shell ssh_ok))))

  -- From `ssh_channel_new` on, with the new session in place.
  unfoldable pub open_channel : Conn → ℕ → M (Conn × Bool)
  open_channel this s = do
    made ← create E (ssh_channel_new s)
    let that = record this { channel = to_pointer made }
    c ← load that.channel
    ready ← open_steps c
    if ready
        then pure (that, is_set that.channel)
        else (do closed ← brutal_exception that; pure (closed, false))

  unfoldable pub connect : ℕ → Conn → M (Conn × Bool)
  connect fuel this = do
    tell E libssh_begin
    (made, left) ← connect_ssh E fuel this.password this.host (some this.user) (pos 0)
    elim made [
      | none ↦ (do
        tell E ssh_finalize
        pure (record this { session = null; password = left }, false))
      | some s ↦ open_channel (record this { session = at s; password = left }) s
    ]

  unfoldable pub write : Conn → Text → M (Unit {0})
  write this command = do c ← load this.channel; tell E (ssh_channel_write c command)

  unfoldable pub keep_alive : Conn → M (Unit {0})
  keep_alive this = do s ← load this.session; tell E (ssh_send_ignore s (text "keepalive"))

  unfoldable pub disconnect : Conn → M Conn
  disconnect this = elim this.session [
    | uninitialised ↦ fault
    | null ↦ pure this
    | at s ↦ (do
      tell E (ssh_disconnect s)
      tell E (ssh_free s)
      tell E ssh_finalize
      pure (record this { session = null }))
  ]
