-- ===== src/Control/Handlers.antt =====
-- The handlers of src/main.cpp that ask the control task for work, each up to where it waits, and the part
-- behind the wait.
pub mod Files
pub mod Terminal
pub mod Carrying
pub mod Transfers
mod Examples
use esp.Base.{ℕ, Bool, true, List, [], ◌∷◌, ◌++◌, length, if◌then◌else◌}
use esp.Base.Bytes.{Text, text, c_str}
use esp.Base.Int.{pos}
use esp.Strings.{StringApi}
use esp.Http.{Request, ResCall, set_header, println, read_body}
use esp.Ssh.Transfer.{sub32}
use esp.Control.{Mail, is_pending}
use esp.Http.{write}
use esp.Strings.LastField.{last_field}

-- The handlers, up to where they wait if they do: the requests that they leave, and what they have
-- called on the response.
unfoldable pub handle_terminal_post : StringApi → Request → Mail → Mail × List ResCall
handle_terminal_post S req m =
    let input = read_body [] req.chunks in
    (
      record m { ssh_command = S.substring input 1 (sub32 (length input) 1) },
      set_header (text "Content-Type") (text "text/plain") ∷ [],
    )

unfoldable pub handle_ssh_status1 : Mail → Mail × List ResCall
handle_ssh_status1 m = (
  record m { hp_1_status_req = true },
  set_header (text "Content-Type") (text "application/json") ∷ [],
)

unfoldable pub switch_ssh0 : Mail → Mail × List ResCall
switch_ssh0 m =
    (record m { switch_ssh = text "0" }, set_header (text "Content-Type") (text "text/html") ∷ [])

unfoldable pub switch_ssh1 : Mail → Mail × List ResCall
switch_ssh1 m =
    (record m { switch_ssh = text "1" }, set_header (text "Content-Type") (text "text/html") ∷ [])

-- `urldecode` is the URL library's.
unfoldable pub handle_scp : StringApi → (Text → Text) → Request → Mail → Mail × List ResCall
handle_scp S urldecode req m =
    let fp = urldecode (read_body [] req.chunks) in
    (
      record m { scp_command = S.substring fp 1 (sub32 (length fp) 1) },
      set_header (text "Content-Type") (text "application/octet-stream") ∷ [],
    )

-- Also what it writes to /downloads/upload, a write for each part of the body.
unfoldable pub handle_upload : Request → Mail → Mail × List ResCall × List Text
handle_upload req m = (
  record m { upload_command = c_str (req.header (text "path")) },
  set_header (text "Content-Type") (text "text/html") ∷ [],
  req.chunks,
)

-- The conditions of the loops in which the handlers wait.
unfoldable pub terminal_waits : Mail → Bool
terminal_waits m = is_pending m.ssh_command

unfoldable pub status_waits : Mail → Bool
status_waits m = m.hp_1_status_req

unfoldable pub scp_waits : Mail → Bool
scp_waits m = is_pending m.scp_command

unfoldable pub upload_waits : Mail → Bool
upload_waits m = is_pending m.upload_command

-- Behind the wait: what is left of `shh_output_string`, and the response.
unfoldable pub finish_terminal_post : Text → Text × List ResCall
finish_terminal_post shh_output_string = ([], println shh_output_string ∷ [])

-- A truth value prints as a number.
unfoldable pub finish_ssh_status1 : StringApi → Bool → List ResCall
finish_ssh_status1 S conn = println (S.of_int (pos (if conn then 1 else 0))) ∷ []

-- The loop that copies the file: a write for each read that brings something.
unfoldable pub copy_file : List Text → List ResCall
copy_file [] = []
copy_file ([] ∷ reads) = copy_file reads
copy_file ((c ∷ bytes) ∷ reads) = write (c ∷ bytes) ∷ copy_file reads

-- `size` is the file's, `reads` are what its reads of up to 256 bytes return. The response, and the file
-- that is removed.
unfoldable pub finish_scp : StringApi → Text → ℕ → List Text → List ResCall × Text
unfolding copy_file
finish_scp S plain_file_path size reads =
    let name = last_field S b'/' plain_file_path in
    let filename = text "attachment; filename=\"" ++ (name ++ text "\"") in
    (
      set_header (text "Content-Disposition") (c_str filename)
          ∷ set_header (text "Content-Length") (c_str (S.of_int (pos size)))
          ∷ copy_file reads,
      text "/downloads/file",
    )
