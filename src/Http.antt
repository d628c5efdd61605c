-- ===== src/Http.antt =====
-- What the handlers of src/main.cpp use of the HTTP server library: a request that is read, and the
-- calls that fill in the response, kept as a list in their order. The SD card is a parameter: the
-- text that a path holds, empty if there is no such file.
use esp.Base.{ℕ, List, [], ◌∷◌, ◌++◌}
use esp.Base.Bytes.{Text}
use esp.Strings.{StringApi}

pub record Request : Type 0 where
  -- `getHeader(name)`, empty if the request has no such header
  pub header : Text → Text
  pub request_string : Text
  -- what the calls of `readBytes` return until `requestComplete`
  pub chunks : List Text

pub data ResCall : Type 0 where
  set_header : Text → Text → ResCall
  set_status_code : ℕ → ResCall
  set_status_text : Text → ResCall
  println : Text → ResCall
  write : Text → ResCall

abbrev pub Files : Type 0
Files = Text → Text

-- `while (!(req->requestComplete())) { s = req->readBytes(buffer, 256); data += String(buffer, s); }`
unfoldable pub read_body : Text → List Text → Text
read_body body [] = body
read_body body (chunk ∷ chunks) = read_body (body ++ chunk) chunks

replace_all : StringApi → Text → List (Text × Text) → Text
replace_all S file [] = file
replace_all S file ((find, with) ∷ args) = replace_all S (S.replace file find with) args

-- `FuncReadTemplate`
unfoldable pub func_read_template : StringApi → Files → Text → List (Text × Text) → Text
unfolding replace_all
func_read_template S files path args = replace_all S (files path) args
