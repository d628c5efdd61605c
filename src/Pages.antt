-- ===== src/Pages.antt =====
-- The handlers of src/main.cpp that send a page and keep no state, and the table of routes that
-- `serverTask` registers. `millis` is an argument where it is read.
pub mod Routes
pub mod Serving
mod Examples
use esp.Base.{ℕ, ◌/◌, List, [], ◌∷◌}
use esp.Base.Bytes.{Text, text}
use esp.Base.Int.{pos}
use esp.Strings.{StringApi}
use esp.Http.{
  ResCall, set_header, set_status_code, set_status_text, println, Files, func_read_template,
}

abbrev pub html : ResCall
html = set_header (text "Content-Type") (text "text/html")

unfoldable pub handle_root : StringApi → Files → ℕ → List ResCall
handle_root S files millis =
    html
    ∷ println (
        func_read_template S files (text "/templates/home.html") (
          (text "%LOGGED_IN%", text "logout")
          ∷ (text "%TIME%", S.of_int (pos (millis / 1000)))
          ∷ []))
    ∷ []

unfoldable pub handle_style : Files → List ResCall
handle_style files =
    set_header (text "Content-Type") (text "text/css")
    ∷ set_header (text "Connection") (text "close")
    ∷ println (files (text "/static/style.css"))
    ∷ []

unfoldable pub handle_terminal : StringApi → Files → List ResCall
handle_terminal S files =
    set_header (text "Connection") (text "close")
    ∷ html
    ∷ println (
        func_read_template S files (text "/templates/terminal.html")
          ((text "%LOGGED_IN%", text "logout") ∷ []))
    ∷ []

unfoldable pub handle_computers : StringApi → Files → List ResCall
handle_computers S files =
    html
    ∷ println (
        func_read_template S files (text "/templates/computers.html")
          ((text "%LOGGED_IN%", text "logout") ∷ []))
    ∷ []

unfoldable pub handle_ssh_page : StringApi → Files → List ResCall
handle_ssh_page S files =
    html ∷ println (func_read_template S files (text "/templates/websocket.html") []) ∷ []

unfoldable pub handle_404 : List ResCall
handle_404 =
    set_status_code 404
    ∷ set_status_text (text "Not Found")
    ∷ html
    ∷ println (text "<!DOCTYPE html>")
    ∷ println (text "<html>")
    ∷ println (text "<head><title>Not Found</title></head>")
    ∷ println (
        text
          "<body><h1>404 Not Found</h1><p>The requested resource was not found on this server.</p></body>")
    ∷ println (text "</html>")
    ∷ []

-- The functions that the nodes are made with; the last two are the websockets'.
pub data Handler : Type 0 where
  root not_found terminal terminal_post style computers ssh_page ssh_status1 : Handler
  toggle1 toggle2 toggle3 toggle4 toggle5 toggle6 switch0 switch1 : Handler
  fan admin log_in scp upload : Handler
  ssh_socket fan_socket : Handler

pub data Method : Type 0 where
  get post websocket : Method

pub record Route : Type 0 where
  pub path : Text
  pub method : Method
  pub handler : Handler

abbrev pub route : Text → Method → Handler → Route
route path method handler = record { path = path; method = method; handler = handler }

-- The nodes in the order of `registerNode`.
unfoldable pub routes : List Route
routes =
    route (text "/ssh") websocket ssh_socket
    ∷ route (text "/websocketFan") websocket fan_socket
    ∷ route (text "/sshpage") get ssh_page
    ∷ route (text "/") get root
    ∷ route (text "/scp") post scp
    ∷ route (text "/terminal") get terminal
    ∷ route (text "/terminal_post") post terminal_post
    ∷ route (text "/SSH1Status") post ssh_status1
    ∷ route (text "/toggle1") post toggle1
    ∷ route (text "/toggle2") post toggle2
    ∷ route (text "/toggle3") post toggle3
    ∷ route (text "/toggle4") post toggle4
    ∷ route (text "/toggle5") post toggle5
    ∷ route (text "/toggle6") post toggle6
    ∷ route (text "/switchssh0") post switch0
    ∷ route (text "/switchssh1") post switch1
    ∷ route (text "/fan") post fan
    ∷ route (text "/computers") get computers
    ∷ route (text "/admin") get admin
    ∷ route (text "/admin") post log_in
    ∷ route (text "/style.css") get style
    ∷ route (text "/upload") post upload
    ∷ []
