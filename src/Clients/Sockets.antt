-- ===== src/Clients/Sockets.antt =====
-- The classes `SSHHandler` and `FanHandler` of src/main.cpp as the server sees them: the three methods by
-- which it makes an object, hands it a message and closes it.
use esp.Base.{◌≡◌, refl, ℕ, Bool, Option, none, some, List, [], ◌∷◌}
use esp.Base.Bytes.{Text, c_str}
use esp.Clients.{
  Registry, ssh_create, ssh_on_close, ssh_on_message, fan_create, fan_on_close, fan_on_message,
}
use esp.Clients.Spec.{Call, creates, closes, ssh_table, fan_table, step, run}

-- A method, with the object and whether the lock is got.
pub data Method : Type 0 where
  create on_close : ℕ → Bool → Method
  on_message : Option Text → Method

pub data SocketClass : Type 0 where
  ssh_handler fan_handler : SocketClass

-- What the methods change.
pub record Sockets : Type 0 where
  pub clients : Registry
  pub clients_fan : Registry
  pub ssh_command : Text

unfoldable call_ssh : Method → Sockets → Sockets
call_ssh (create h got) s = record s { clients = (ssh_create s.clients got h).0 }
call_ssh (on_message m) s = record s { ssh_command = ssh_on_message m s.ssh_command }
call_ssh (on_close h got) s = record s { clients = (ssh_on_close s.clients got h).0 }

unfoldable call_fan : Method → Sockets → Sockets
call_fan (create h got) s = record s { clients_fan = (fan_create s.clients_fan got h).0 }
call_fan (on_message m) s = record s { clients_fan = fan_on_message m s.clients_fan }
call_fan (on_close h got) s = record s { clients_fan = (fan_on_close s.clients_fan got h).0 }

-- The calls of the server in their order.
unfoldable pub call_all : List (SocketClass × Method) → Sockets → Sockets
unfolding call_ssh call_fan
call_all [] s = s
call_all ((ssh_handler, m) ∷ calls) s = call_all calls (call_ssh m s)
call_all ((fan_handler, m) ∷ calls) s = call_all calls (call_fan m s)

add_call : Method → List Call → List Call
add_call (create h got) calls = creates h got ∷ calls
add_call (on_message m) calls = calls
add_call (on_close h got) calls = closes h got ∷ calls

-- The calls that open and close the clients of a class.
pub ssh_calls : List (SocketClass × Method) → List Call
unfolding add_call
ssh_calls [] = []
ssh_calls ((ssh_handler, m) ∷ calls) = add_call m (ssh_calls calls)
ssh_calls ((fan_handler, m) ∷ calls) = ssh_calls calls

pub fan_calls : List (SocketClass × Method) → List Call
unfolding add_call
fan_calls [] = []
fan_calls ((ssh_handler, m) ∷ calls) = fan_calls calls
fan_calls ((fan_handler, m) ∷ calls) = add_call m (fan_calls calls)

-- The last message to the class for SSH, or the text given.
pub last_message : Text → List (SocketClass × Method) → Text
last_message old [] = old
last_message old ((ssh_handler, on_message (some m)) ∷ calls) = last_message (c_str m) calls
last_message old (_ ∷ calls) = last_message old calls

-- However the calls to the two classes are mixed, each table is what the calls to its own class alone
-- make of it, and the command that is left is the last message to the class for SSH, up to its
-- first zero byte, or the old command if there was none.
call_all-apart :
    (calls : List (SocketClass × Method)) (s : Sockets)
    → ((call_all calls s).clients ≡ run ssh_table s.clients (ssh_calls calls))
      × ((call_all calls s).clients_fan ≡ run fan_table s.clients_fan (fan_calls calls))
      × ((call_all calls s).ssh_command ≡ last_message s.ssh_command calls)
unfolding call_all ssh_calls fan_calls run step fan_on_message ssh_on_message last_message
call_all-apart [] s = (refl, refl, refl)
call_all-apart ((ssh_handler, create h got) ∷ calls) s = call_all-apart calls _
call_all-apart ((ssh_handler, on_message none) ∷ calls) s = call_all-apart calls _
call_all-apart ((ssh_handler, on_message (some m)) ∷ calls) s = call_all-apart calls _
call_all-apart ((ssh_handler, on_close h got) ∷ calls) s = call_all-apart calls _
call_all-apart ((fan_handler, create h got) ∷ calls) s = call_all-apart calls _
call_all-apart ((fan_handler, on_message m) ∷ calls) s = call_all-apart calls _
call_all-apart ((fan_handler, on_close h got) ∷ calls) s = call_all-apart calls _
