-- ===== src/Control/Handlers/Transfers.antt =====
-- Files between a visitor and a server, over the handlers, the next turn of the control loop and the card.
use esp.Base.{ap, ◌≤◌, ℕ, ◌<◌, ◌≡◌, ◌≢◌, refl, sym, ◌∙◌, subst, Bool, List, [], ◌∷◌, ◌++◌, length}
use esp.Base.Bytes.{Text, text, c_str, c_str-Absent, Absent}
use esp.Base.Int.{pos}
use esp.Strings.{StringApi, IsLawful}
use esp.Http.{Request, ResCall, set_header}
use esp.Clients.{Registry}
use esp.Ssh.{Libssh, Log}
use esp.Ssh.Conn.{Conn}
use esp.Strings.LastField.{last_field, last_field-Absent}
use esp.Ssh.Scp.Tokens.{directories-whole}
use esp.Ssh.Scp.{directories}
use esp.Ssh.Scp.Pushing.{IsTaking, base_name}
use esp.Control.{Control, turn}
use esp.Control.Handlers.{handle_upload}
use esp.Control.Handlers.Files.{concat, body_of}
use esp.Control.Handlers.Carrying.{Sent, IsUp, with_mail-IsUp, upload_turn}

-- The response to a download of a file with this name and these bytes.
abbrev pub Responds : StringApi → Text → Text → List ResCall → Type 0
Responds S name content calls =
    (bytes : List ResCall) × (calls
      ≡ set_header (text "Content-Disposition")
          (text "attachment; filename=\"" ++ (name ++ text "\""))
        ∷ set_header (text "Content-Length") (c_str (S.of_int (pos (length content))))
        ∷ bytes)
    × (body_of bytes ≡ content)

module _ (S : StringApi) (E : Libssh) (fuel : ℕ) (clients : Registry) (got : Bool) where
  -- An upload with a path that has no slash makes a directory with the file's own name, and puts the file into
  -- it, under that name again: when the header's path, as far as a C string goes, is a name that is not
  -- empty, holds neither slash, backslash nor zero byte, and has at most 255 bytes, the next turn of the
  -- control loop ends, the handler waits no longer, and this is what the server has got, with the bytes
  -- of the request's body. The other conditions are those of an upload with a slash.
  pub upload_without_slash :
      (req : Request) (this : Control) (c : Conn) (name : Text) (log : Log)
      → IsLawful S
      → IsTaking E (concat (handle_upload req this.mail).2)
      → length (concat req.chunks) < fuel
      → IsUp this c
      → c_str (req.header (text "path")) ≡ name
      → name ≢ []
      → Absent b'/' name
      → Absent 92 name
      → Absent 0 name
      → length name ≤ 255
      → Sent
          (name ∷ [])
          name
          (concat req.chunks)
          (turn S E fuel clients got (record this { mail = (handle_upload req this.mail).0 }) log)
  unfolding handle_upload last_field
  upload_without_slash req this c name log L taking enough up path some_name a b z short =
      let posted = record this { mail = (handle_upload req this.mail).0 } in
      let dirs = ap (directories S) path ∙ directories-whole S name L a b z some_name short in
      let base : base_name S (c_str (req.header (text "path"))) ≡ name =
        ap (λ (p : Text). c_str (last_field S b'/' p)) path
        ∙ ap c_str (last_field-Absent S L b'/' name a)
        ∙ c_str-Absent name z in
      subst (λ d. Sent d name (concat req.chunks) (turn S E fuel clients got posted log)) dirs
        (subst
          (λ n.
            Sent (directories S posted.mail.upload_command) n (concat req.chunks)
              (turn S E fuel clients got posted log))
          base
          (upload_turn S E fuel clients got (concat req.chunks) posted c log taking enough
            (with_mail-IsUp _ refl refl up) (λ none. some_name (sym path ∙ none))))
