-- ===== src/Control/Examples.antt =====
-- The control loop with one server.
use esp.Base.{arith, ◌≡◌, refl, true, false, none, [], ◌∷◌, replicate}
use esp.Base.Bytes.{text}
use esp.Base.{inl}
use esp.Base.Int.{ℤ, pos, to_uint32}
use esp.Strings.Reference.{reference, reference-IsLawful}
use esp.Http.{Request}
use esp.Clients.{Registry, max_clients}
use esp.Ssh.{Libssh}
use esp.Ssh.Returns.{Returns}
use esp.Ssh.Conn.{Conn, null, at}
use esp.Control.Handlers.Terminal.{Delivers, terminal_post-Delivers}
use esp.Control.Handlers.{handle_terminal_post}
use esp.Control.{Mail, Control, choose, turn}
use esp.Strings.Reference.{to_int}
use esp.Ssh.{
  Call, ssh_userauth_list, Log, undefined, created, called, ssh_channel_new, ssh_new, libssh_begin,
}
use esp.Ssh.Login.{offers_password}
use esp.Ssh.Login.Ends.{IsPatient}
use esp.Control.Handlers.{switch_ssh1}
use esp.Control.{turn}
use esp.Control.Switching.{HasServer, switch_past_end}
use esp.Control.Switched.{Switched, visitor_switches}
use esp.Control.Requests.{served, choose-served}

abbrev pub quiet_library : Libssh
quiet_library = record {
  returns = λ log c. pos 0;
  holds = λ log c. true;
  allocates = λ log c. true;
  receives = λ log c. [];
  now = λ log. 0;
}

abbrev pub down : Conn
down = record {
  host = text "10.0.0.2";
  user = text "root";
  password = text "hunter2";
  channel = null;
  session = null;
  conn = false;
}

abbrev pub up : Conn
up = record down { channel = at 3; session = at 2; conn = true }

-- A command and a download are pending.
abbrev pub two_requests : Mail
two_requests = record {
  switch_ssh = [];
  ssh_command = text "ls";
  upload_command = [];
  scp_command = text "/etc/motd";
  hp_1_status_req = false;
}

abbrev pub board : Control
board = record { servers = up ∷ []; current = 0; mail = two_requests; last_keep_alive = 0 }

abbrev pub lost : Control
lost = record board { servers = down ∷ [] }

abbrev pub post : Request
post = record {
  header = λ name. [];
  request_string = text "/terminal";
  chunks = text "=upt" ∷ text "ime" ∷ [];
}

abbrev pub table : Registry
table = record { has_mutex = true; slots = replicate max_clients none }

choose-served_example :
    Returns
      (λ left. left.mail ≡ served true two_requests)
      (choose reference quiet_library 3 board up [])
choose-served_example = choose-served reference quiet_library 3 board up []

-- A path between quotes, and the two parts in which its file is read.
abbrev pub request_of_path : Request
request_of_path = record post { chunks = text "\"/etc/mo" ∷ text "td\"" ∷ [] }

abbrev quoted : Request
quoted = record post { chunks = text "\"u" ∷ text "pt\"" ∷ [] }

terminal_post-Delivers_example : Delivers 3 (text "upt") (
    turn reference quiet_library 3 table true
      (record board { mail = (handle_terminal_post reference quoted board.mail).0 })
      [])
terminal_post-Delivers_example =
    terminal_post-Delivers reference quiet_library 3 table true board up 3 2 quoted (text "upt")
      b'"' b'"' [] reference-IsLawful refl refl refl refl refl (λ e. cc) refl (omega arith)

board-HasServer : HasServer board up
board-HasServer = record {
  is_server = refl;
  is_up = refl;
  channel = 3;
  has_channel = refl;
  session = 2;
  has_session = refl;
}

switch_past_end_example :
    turn reference quiet_library 3 table true
      (record board { mail = (switch_ssh1 two_requests).0 })
      []
    ≡ undefined
unfolding to_int
switch_past_end_example =
    switch_past_end reference quiet_library 3 table true board up [] board-HasServer refl refl

-- Two servers, and a library that takes every password.
abbrev kind : Call → ℤ
kind (ssh_userauth_list s) = pos 2
kind _ = pos 0

abbrev kind_library : Libssh
kind_library = record quiet_library { returns = λ log c. kind c }

abbrev two_servers : Control
two_servers = record board { servers = up ∷ down ∷ [] }

abbrev up_log : Log
up_log = created (ssh_channel_new 2) ∷ created ssh_new ∷ called libssh_begin ∷ []

two_servers-HasServer : HasServer two_servers up
two_servers-HasServer = record {
  is_server = refl;
  is_up = refl;
  channel = 3;
  has_channel = refl;
  session = 2;
  has_session = refl;
}

kind_library-IsPatient : IsPatient kind_library 0
unfolding offers_password to_uint32
kind_library-IsPatient = record { offered = λ log s. refl; decided = λ log s password h. inl refl }

visitor_switches_example : Switched 0 0 (
    turn reference kind_library 1 table true
      (record two_servers { mail = (switch_ssh1 two_requests).0 })
      up_log)
unfolding to_int
visitor_switches_example =
    visitor_switches reference kind_library 0 kind_library-IsPatient table true 0 two_servers up
      down up_log two_servers-HasServer (λ e. omega arith) refl
      (record { no_session = refl; no_channel = refl }) (omega arith)
      (record { owns_session = refl; owns_channel = refl; owns_start = refl }) refl
