-- ===== src/Lib.antt =====
-- The firmware of an ESP32 that is a web gateway to a few laptops. It serves pages over HTTPS, holds
-- SSH sessions to the laptops, presses their power buttons and drives a fan.
--
-- Three tasks share globals. `setup` starts two of them and the framework runs the third, `loop`. The
-- control task waits for the network in `wait_for_wifi_exec` and then runs `ex_main`, which alone
-- uses the SSH library. The server task runs the handlers of the pages and the websockets: they leave
-- requests in globals (`ssh_command`, `scp_command`, `upload_command`, `switch_ssh`,
-- `hp_1_status_req`), and most of them wait until the control task has cleared them. Terminal
-- output goes from `ssh_conn::read`, and the fan's speed from `loop`, to the websocket clients in two
-- tables behind a mutex each.
--
-- The files, and the code that each is about:
--   Base, Base/*     numbers, tests, lists, bytes and C integers, on the native numbers
--   Strings          the methods of Arduino's String that the program calls, as a parameter with
--                    hypotheses; Strings/Reference is an implementation that meets them
--   Http             requests, response calls, FuncReadTemplate and the body loop of src/main.cpp
--   Auth             middlewareAuth, handleLogIn and handleAdmin of src/main.cpp
--   Clients          activeClients, activeClientsFan, SSHHandler and FanHandler of src/main.cpp;
--                    Clients/Spec says what a table promises, as counts of open clients
--   Ssh              the calls of the SSH library, and the monad of its callers; Ssh/Ledger counts
--                    what a log of calls opens and gives back
--   Ssh/Login        authenticate_console and connect_ssh of src/ssh_functions.cpp
--   Ssh/Conn         the class ssh_conn of src/main.cpp: connect, brutal_exception, disconnect,
--                    write and keep_alive
--   Ssh/Transfer     read and exec_cmd of ssh_conn
--   Ssh/Scp          scp_write and scp_read of ssh_conn, with the file on the SD card
--   Ssh/Interactive  authenticate_kbdint and auth_keyfile of src/ssh_functions.cpp
--   Control          ex_main of src/main.cpp, a turn of its loop as one function; Control/Handlers has
--                    the handlers that wait for it
--   Control/Steps    a turn in its steps, each of which reads or writes the requests once
--   Control/Tasks    the control task and the server task together, as moves of the two
--   Pages            the pages without state and the nodes of serverTask in src/main.cpp;
--                    Pages/Serving has serverTask and what the function of each node changes
--   Wifi             wait_for_wifi_exec and event_cb of src/ssh_functions.cpp, devState_t of
--                    include/ssh_functions.h
--   Fan              tachISR, loop and handleFan of src/main.cpp
--   Setup            getPassword, and the files that setup reads, of src/main.cpp
--   Power            the laptops' pins in setup, and handleToggle1 to handleToggle6
--   Boot             app_main of src/entry_point.cpp, setup of src/main.cpp, with the globals as
--                    the tasks find them; Boot/Tasks has controlTask and the turns of loop
--
-- A function of the code is the definition of its name in lower case with underscores, so that
-- `middlewareAuth` is `middleware_auth`. State goes in and out as a record. A call that the program makes
-- to the SSH library is put on a log, and its answer is that of a parameter which may depend on the
-- whole log: no theorem assumes that the library behaves well unless it says so. What the code does
-- with an uninitialised pointer, or with an index past the end of a vector, is the outcome `undefined`.
--
-- Five loops take fuel: the retry loop of `authenticate_console` and the rounds of
-- `authenticate_kbdint`, which may have no end, the loop of `exec_cmd`, which waits for output until its
-- timeout, and those that send and receive a file. Running out of fuel is an
-- outcome of its own, which is never taken for a result. Fuel of one more than the number of the call
-- from which the library is as good as the theorem says, or than the bytes to receive or to send, is
-- enough, and of two more for `authenticate_kbdint`. That the timeout of `exec_cmd` ends its loop is not
-- shown: the clock is free.
-- The fuel of `finish` in Control/Steps is a number of steps: eight are enough for a turn.
-- All other loops are structural recursion. Numbers of 32 bits wrap where the code's do.
--
-- `turn` is a turn of the control loop with nothing between: no global changes while it runs. In
-- Control/Steps and Control/Tasks the requests may change between its read, the test of each branch, its
-- call and the assignment that clears the request; each of these, and each change that a handler makes, is
-- one step. Printing, delays and yields are left out,
-- but for the calls by which `setup` and `serverTask` prepare the board and the server: these are
-- lists in their order.
-- `Pages/Serving` composes the middleware and the functions of the nodes for requests of pages. The
-- HTTPS server makes a websocket's handler also behind a middleware that did not forward, so
-- websockets have no part in what is said of visitors there.
-- Not modelled: `wifiMulti.run()`, the payload that `handle404` discards, and the libraries of other
-- projects (LibSSH, the HTTPS server, the key-value store, URL decoding), whose calls are parameters.
-- A request that begins with a zero byte counts as pending here, but as empty in the code, which compares
-- it as a C string.
pub mod Base
pub mod Strings
pub mod Http
pub mod Wifi
pub mod Clients
pub mod Auth
pub mod Fan
pub mod Setup
pub mod Power
pub mod Ssh
pub mod Control
pub mod Pages
pub mod Boot
