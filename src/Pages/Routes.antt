-- ===== src/Pages/Routes.antt =====
-- Which handlers a visitor without a password can reach.
use esp.Base.{
  ◌≡◌, ◌⊎◌, refl, inl, inr, Bool, true, false, ◌&&◌, if◌then◌else◌, List, [], ◌∷◌, arith,
}
use esp.Base.Bytes.{Text, text_eq, text_eq_iff, c_str, Absent}
use esp.Strings.{StringApi}
use esp.Http.{Request, Files}
use esp.Auth.{Dictionary, middleware_auth, forwards}
use esp.Auth.Gate.{IsOpen, IsAuthorised, middleware_cases}
use esp.Pages.{Handler, not_found, style, admin, log_in, Method, Route, routes}

-- Some node was registered for the path and the method, with this handler.
abbrev pub IsRegistered : List Route → Method → Text → Handler → Type 0
IsRegistered [] method path handler = ⊥
IsRegistered (r ∷ nodes) method path handler =
    ((r.path ≡ path) × (r.method ≡ method) × (r.handler ≡ handler))
    ⊎ IsRegistered nodes method path handler

-- The HTTPS server's choice of a node: the default one, or one that was registered for the method and,
-- if the request has no query, for just this path.
pub record IsResolver (resolve : List Route → Handler → Method → Text → Handler) : Type 0 where
  pub resolves :
      (nodes : List Route) (default : Handler) (method : Method) (path : Text)
      → Absent b'?' path
      → (resolve nodes default method path ≡ default)
        ⊎ IsRegistered nodes method path (resolve nodes default method path)

abbrev pub IsPublic : Handler → Type 0
IsPublic h = (h ≡ style) ⊎ (h ≡ admin) ⊎ (h ≡ log_in) ⊎ (h ≡ not_found)

is_public : Handler → Bool
is_public style = true
is_public admin = true
is_public log_in = true
is_public not_found = true
is_public _ = false

is_public_lem : (h : Handler) → is_public h ≡ true → IsPublic h
unfolding is_public
is_public_lem h e = ground arith

-- Every node for the path is public.
opens : List Route → Text → Bool
unfolding is_public
opens [] path = true
opens (r ∷ nodes) path =
    if text_eq r.path path then is_public r.handler && opens nodes path else opens nodes path

IsRegistered-IsPublic :
    (nodes : List Route) (method : Method) (path : Text) (h : Handler)
    → opens nodes path ≡ true
    → IsRegistered nodes method path h
    → IsPublic h
unfolding opens
IsRegistered-IsPublic [] method path h o r = absurd r
IsRegistered-IsPublic (n ∷ nodes) method path h o (inl (p, q, e)) =
    is_public_lem h (ground (arith, text_eq_iff n.path path))
IsRegistered-IsPublic (n ∷ nodes) method path h o (inr r) =
    IsRegistered-IsPublic nodes method path h (ground (arith, text_eq_iff n.path path)) r

open_routes : (path : Text) → IsOpen path → (opens routes path ≡ true) × Absent b'?' path
unfolding opens routes text_eq
open_routes path (inl e) = rw e (refl, omega arith)
open_routes path (inr (inl e)) = rw e (refl, omega arith)
open_routes path (inr (inr e)) = rw e (refl, omega arith)

-- A request that is not authorised and passes the middleware ends at the style sheet, the log-in page,
-- the log-in or the page for what is not found, whatever its method, if the server chooses a node that
-- was registered for the path and the method, or the default one.
pub unauthorised_handlers :
    (S : StringApi) (D : Dictionary) (files : Files)
    (resolve : List Route → Handler → Method → Text → Handler) (store : D.Store) (password : Text)
    (req : Request) (method : Method)
    → IsResolver resolve
    → ¬ IsAuthorised S D files store password req
    → middleware_auth S D files store password req ≡ forwards
    → IsPublic (resolve routes not_found method (c_str req.request_string))
unauthorised_handlers S D files resolve store password req method R u f =
    let path = c_str req.request_string in
    elim ((middleware_cases S D files store password req).0.0 f) [
      | inl (a, p) ↦ absurd (u a)
      | inr (b, o) ↦
          let known = open_routes path o in
          elim (R.resolves routes not_found method path known.1) [
            | inl e ↦ inr (inr (inr e))
            | inr r ↦ IsRegistered-IsPublic routes method path _ known.0 r
          ]
    ]
