-- ===== src/Pages/Examples.antt =====
-- A resolver, and a visitor without a password.
use esp.Base.{
  ◌≡◌, ◌⊎◌, inl, inr, refl, Bool, true, false, Bool-cases, ◌&&◌, if◌then◌else◌, none, Option, some,
  replicate, length, ℕ, List, [], ◌∷◌, arith,
}
use esp.Base.Bytes.{Text, text, text_eq, text_eq_iff}
use esp.Strings.Reference.{reference}
use esp.Http.{Request, read_body}
use esp.Auth.{Dictionary, IsDictionary}
use esp.Control.{Mail}
use esp.Pages.Serving.{Site, Moment}
use esp.Pages.Serving.Guarded.{Visit, IsClean, serve_all, guesses_change_nothing}
use esp.Pages.{Handler, Method, get, post, websocket, Route}
use esp.Pages.Routes.{IsRegistered, IsResolver}

same_method : Method → Method → Bool
same_method get get = true
same_method post post = true
same_method websocket websocket = true
same_method _ _ = false

same_method_sound : (m n : Method) → same_method m n ≡ true → m ≡ n
unfolding same_method
same_method_sound m n e = ground arith

first_match : List Route → Handler → Method → Text → Handler
unfolding same_method
first_match [] default method path = default
first_match (r ∷ nodes) default method path =
    if text_eq r.path path && same_method r.method method
    then r.handler
    else first_match nodes default method path

first_match_lem :
    (nodes : List Route) (default : Handler) (method : Method) (path : Text)
    → (first_match nodes default method path ≡ default)
      ⊎ IsRegistered nodes method path (first_match nodes default method path)
unfolding first_match
first_match_lem [] default method path = inl refl
first_match_lem (r ∷ nodes) default method path =
    elim (Bool-cases (text_eq r.path path && same_method r.method method)) [
      | inl e ↦
          rw (e, first_match)
            (inr (
              inl (
                (text_eq_iff r.path path).0 (ground arith),
                same_method_sound r.method method (ground arith),
                refl,
              )))
      | inr e ↦
          rw (e, first_match)
            (elim (first_match_lem nodes default method path) [
              | inl d ↦ inl d
              | inr m ↦ inr (inr m)
            ])
    ]

first_match-IsResolver : IsResolver first_match
first_match-IsResolver = record {
  resolves = λ nodes default method path a. first_match_lem nodes default method path;
}

abbrev visit : Request
visit = record { header = λ name. []; request_string = text "/admin"; chunks = [] }

-- A store as a function.
abbrev by_function : Dictionary
by_function = record {
  Store = Text → Option Text;
  lookup = λ s k. s k;
  insert = λ s k v. λ j. if text_eq j k then some v else s j;
}

by_function-IsDictionary : IsDictionary by_function
by_function-IsDictionary = record { lookup-insert = λ s k j v. refl }

abbrev toy_digest : Text → List ℕ
toy_digest s = replicate 32 (length s)

abbrev calm : Mail
calm = record {
  switch_ssh = [];
  ssh_command = [];
  upload_command = [];
  scp_command = [];
  hp_1_status_req = false;
}

abbrev gateway : Site by_function
gateway = record {
  store = λ key. none;
  password = text "hunter2";
  mail = calm;
  clients = record { has_mutex = true; slots = [] };
  clients_fan = record { has_mutex = true; slots = [] };
  pressed = [];
  duty = none;
  uploaded = [];
}

abbrev noon : Moment
noon = record { millis = 5000; got = true; fresh = 7 }

-- A wrong guess at the password, then a press of a button.
abbrev guesses : List Visit
guesses =
    record {
      moment = noon;
      method = post;
      req = record visit { chunks = text "password=guess" ∷ [] };
    }
    ∷ record {
      moment = noon;
      method = post;
      req = record visit { request_string = text "/toggle1" };
    }
    ∷ []

guesses_change_nothing_example :
    let v =
      serve_all reference by_function
        (λ path. [])
        toy_digest
        (λ s. s)
        first_match
        guesses
        gateway in
    (record v { store = gateway.store } ≡ gateway)
    × IsClean reference by_function
        (λ path. [])
        toy_digest
        (λ s. s)
        first_match
        v.store
        (text "hunter2")
unfolding esp.Strings.LastField.last_field esp.Strings.Reference.substring
    esp.Strings.Reference.last_index_of read_body
guesses_change_nothing_example =
    guesses_change_nothing reference by_function (λ path. []) toy_digest (λ s. s) first_match
      guesses gateway first_match-IsResolver by_function-IsDictionary (λ key e. cc)
      ((λ e. cc, λ e. cc), ((λ e. cc, λ e. cc), tt))
