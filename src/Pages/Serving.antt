-- ===== src/Pages/Serving.antt =====
-- `serverTask` of src/main.cpp and the handlers behind its nodes: what each of them does to the globals
-- when it is called, up to where it waits if it does.
pub mod Guarded
use esp.Base.{
  ℕ, zero, suc, ◌+◌, Bool, true, Option, none, some, List, [], ◌∷◌, ◌++◌, map, length,
  if◌then◌else◌,
}
use esp.Base.Bytes.{Text, text, c_str}
use esp.Strings.{StringApi}
use esp.Http.{Request, ResCall, Files}
use esp.Auth.{Dictionary, middleware_auth, forwards, answers, handle_log_in, handle_admin, Verdict}
use esp.Clients.{Registry, max_clients, ssh_create, fan_create}
use esp.Fan.{handle_fan}
use esp.Power.{
  PinCall, handle_toggle1, handle_toggle2, handle_toggle3, handle_toggle4, handle_toggle5,
  handle_toggle6,
}
use esp.Control.{Mail}
use esp.Control.Handlers.{
  handle_terminal_post, handle_ssh_status1, switch_ssh0, switch_ssh1, handle_scp, handle_upload,
}
use esp.Pages.{
  Handler, root, not_found, terminal, terminal_post, style, computers, ssh_page, ssh_status1,
  toggle1, toggle2, toggle3, toggle4, toggle5, toggle6, switch0, switch1, fan, admin, log_in, scp,
  upload, ssh_socket, fan_socket, Method, Route, routes, handle_root, handle_style, handle_terminal,
  handle_computers, handle_ssh_page, handle_404,
}

-- The calls of `serverTask` to the server's library and the framework, in their order. The certificate
-- is made of two texts, each with its length and one byte more for the zero at its end.
pub data ServerCall : Type 0 where
  wdt_delete wdt_add : ServerCall
  open_read close_file : Text → ServerCall
  new_cert : Text → ℕ → Text → ℕ → ServerCall
  new_server : ℕ → ℕ → ServerCall
  register_node : Route → ServerCall
  set_default_node : Handler → ServerCall
  add_middleware_auth start is_running loop_once : ServerCall
  delay : ℕ → ServerCall

-- The first `registerNode` calls come before `setDefaultNode`.
unfoldable pub register_nodes : List Route → List ServerCall
register_nodes (a ∷ b ∷ c ∷ d ∷ e ∷ rest) =
    register_node a
    ∷ register_node b
    ∷ register_node c
    ∷ register_node d
    ∷ register_node e
    ∷ set_default_node not_found
    ∷ map register_node rest
register_nodes nodes = map register_node nodes

-- Turns of `while (true)`.
unfoldable pub server_loop : ℕ → List ServerCall
server_loop zero = []
server_loop (suc n) = loop_once ∷ delay 1 ∷ server_loop n

unfoldable pub server_task : Files → Bool → ℕ → List ServerCall
unfolding register_nodes server_loop routes
server_task files running turns =
    let crt = text "/crypto/server.crt" in
    let key = text "/crypto/server.key" in
    (wdt_delete
      ∷ open_read crt
      ∷ close_file crt
      ∷ open_read key
      ∷ close_file key
      ∷ new_cert (c_str (files crt)) (length (files crt) + 1) (c_str (files key))
          (length (files key) + 1)
      ∷ wdt_add
      ∷ new_server 443 max_clients
      ∷ [])
    ++ (register_nodes routes
        ++ (add_middleware_auth ∷ start ∷ is_running ∷ (if running then server_loop turns else [])))

-- The nodes that the server has after the calls, and its default node.
abbrev pub registered : List ServerCall → List Route
registered [] = []
registered (register_node r ∷ calls) = r ∷ registered calls
registered (_ ∷ calls) = registered calls

abbrev pub default_node : List ServerCall → Option Handler
default_node [] = none
default_node (set_default_node h ∷ calls) = elim (default_node calls) [
  | none ↦ some h
  | some g ↦ some g
]
default_node (_ ∷ calls) = default_node calls

abbrev pub or_not_found : Option Handler → Handler
or_not_found none = not_found
or_not_found (some h) = h

module _ (D : Dictionary) where
  -- What the handlers change: globals, pins, the fan's duty and the file for an upload.
  pub record Site : Type 0 where
    pub store : D.Store
    pub password : Text
    pub mail : Mail
    pub clients : Registry
    pub clients_fan : Registry
    pub pressed : List PinCall
    pub duty : Option ℕ
    pub uploaded : List Text

-- What a call finds: the clock, whether a lock is got, and the address of a new object.
pub record Moment : Type 0 where
  pub millis : ℕ
  pub got : Bool
  pub fresh : ℕ

module _ (S : StringApi) (D : Dictionary) (files : Files) (sha256 : Text → List ℕ)
    (urldecode : Text → Text) where
  abbrev Served : Type 0
  Served = Site D × List ResCall

  press : List PinCall → Site D → Served
  press calls w = (record w { pressed = w.pressed ++ calls }, [])

  leave : Mail × List ResCall → Site D → Served
  leave (mail, calls) w = (record w { mail = mail }, calls)

  log_in_at : D.Store × List ResCall → Site D → Served
  log_in_at (store, calls) w = (record w { store = store }, calls)

  set_duty : ℕ × List ResCall → Site D → Served
  set_duty (n, calls) w = (record w { duty = some n }, calls)

  keep_upload : Mail × List ResCall × List Text → Site D → Served
  keep_upload (mail, calls, parts) w = (record w { mail = mail; uploaded = parts }, calls)

  -- The function that a node was made with. The websockets' nodes make their object.
  unfoldable pub handle : Handler → Moment → Request → Site D → Site D × List ResCall
  unfolding press leave log_in_at set_duty keep_upload
  handle root t req w = (w, handle_root S files t.millis)
  handle not_found t req w = (w, handle_404)
  handle terminal t req w = (w, handle_terminal S files)
  handle terminal_post t req w = leave (handle_terminal_post S req w.mail) w
  handle style t req w = (w, handle_style files)
  handle computers t req w = (w, handle_computers S files)
  handle ssh_page t req w = (w, handle_ssh_page S files)
  handle ssh_status1 t req w = leave (handle_ssh_status1 w.mail) w
  handle toggle1 t req w = press handle_toggle1 w
  handle toggle2 t req w = press handle_toggle2 w
  handle toggle3 t req w = press handle_toggle3 w
  handle toggle4 t req w = press handle_toggle4 w
  handle toggle5 t req w = press handle_toggle5 w
  handle toggle6 t req w = press handle_toggle6 w
  handle switch0 t req w = leave (switch_ssh0 w.mail) w
  handle switch1 t req w = leave (switch_ssh1 w.mail) w
  handle fan t req w = set_duty (handle_fan S req) w
  handle admin t req w = (w, handle_admin S files)
  handle log_in t req w = log_in_at (handle_log_in S D files sha256 w.store w.password req) w
  handle scp t req w = leave (handle_scp S urldecode req w.mail) w
  handle upload t req w = keep_upload (handle_upload req w.mail) w
  handle ssh_socket t req w = (record w { clients = (ssh_create w.clients t.got t.fresh).0 }, [])
  handle fan_socket t req w =
      (record w { clients_fan = (fan_create w.clients_fan t.got t.fresh).0 }, [])

  abbrev pass : Verdict → Served → Site D → Served
  pass forwards served w = served
  pass (answers calls) served w = (w, calls)

  -- A request for a page: the library chooses one of the nodes that `serverTask` has registered, and calls
  -- its function behind the middleware. For a websocket it makes the object in any case.
  unfoldable pub serve :
      (List Route → Handler → Method → Text → Handler)
      → Moment
      → Method
      → Request
      → Site D
      → Site D × List ResCall
  unfolding handle server_task
  serve resolve t method req w =
      let calls = server_task files true 0 in
      let default = or_not_found (default_node calls) in
      let handler = resolve (registered calls) default method (c_str req.request_string) in
      pass (middleware_auth S D files w.store w.password req) (handle handler t req w) w
