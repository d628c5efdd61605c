-- ===== src/Control/Handlers/Files.antt =====
-- A file from the request for it to the response, by `handleSCP` of src/main.cpp.
use mathlib.Core.List.{append-nil, append_assoc}
use esp.Base.{
  sym, ℕ, ◌+◌, ◌-◌, ◌^◌, ◌<◌, ◌≡◌, refl, ◌∙◌, ap, List, [], ◌∷◌, ◌++◌, length, length-append, take,
  take-append, arith,
}
use esp.Base.Bytes.{Text, text, c_str, Absent, Absent-append, c_str-Absent}
use esp.Base.Int.{pos}
use esp.Strings.{StringApi, IsLawful}
use esp.Strings.LastField.{last_field, last_field-append}
use esp.Http.{Request, ResCall, write, set_header, read_body}
use esp.Ssh.Transfer.{sub32}
use esp.Control.{Mail}
use esp.Control.Handlers.{copy_file, finish_scp, handle_scp}

-- The texts one after the other.
abbrev pub concat : List Text → Text
concat [] = []
concat (t ∷ ts) = t ++ concat ts

-- The bytes that a response writes.
abbrev pub body_of : List ResCall → Text
body_of [] = []
body_of (write bytes ∷ calls) = bytes ++ body_of calls
body_of (_ ∷ calls) = body_of calls

body_of-copy_file : (reads : List Text) → body_of (copy_file reads) ≡ concat reads
unfolding copy_file
body_of-copy_file [] = refl
body_of-copy_file ([] ∷ reads) = body_of-copy_file reads
body_of-copy_file ((c ∷ bytes) ∷ reads) =
    ap (λ (rest : Text). (c ∷ bytes) ++ rest) (body_of-copy_file reads)

pub read_body-concat :
    (body : Text) (chunks : List Text) → read_body body chunks ≡ body ++ concat chunks
unfolding read_body
read_body-concat body [] = sym (append-nil body)
read_body-concat body (chunk ∷ chunks) =
    read_body-concat (body ++ chunk) chunks ∙ append_assoc body chunk (concat chunks)

quoted_lem : (s : Text) (q q' : ℕ) → take (length s + 1 - 1) (s ++ (q' ∷ [])) ≡ s
quoted_lem s q q' =
    let e : length s + 1 - 1 ≡ length s = omega arith in rw e (take-append s (q' ∷ []))

-- `substring(1, length() - 1)` takes the first and the last byte away.
pub unquoted :
    (S : StringApi)
    → IsLawful S
    → (s : Text) (q q' : ℕ) → length (q ∷ (s ++ (q' ∷ []))) < 2 ^ 32
    → S.substring (q ∷ (s ++ (q' ∷ []))) 1 (sub32 (length (q ∷ (s ++ (q' ∷ [])))) 1) ≡ s
unquoted S L s q q' h =
    let e = length-append s (q' ∷ []) in
    let end : sub32 (length (q ∷ (s ++ (q' ∷ [])))) 1 ≡ length s + 1 = omega (arith, e) in
    ap (S.substring (q ∷ (s ++ (q' ∷ []))) 1) end
    ∙ L.substring_lem (q ∷ (s ++ (q' ∷ []))) 1 (length s + 1) (omega arith) (omega (arith, e))
    ∙ quoted_lem s q q'

-- The name that the browser is told.
named :
    (S : StringApi)
    → IsLawful S
    → (dir name : Text) → Absent b'/' name
    → Absent 0 name
    → c_str
        (text "attachment; filename=\"" ++ (last_field S b'/' (dir ++ (b'/' ∷ name)) ++ text "\""))
      ≡ text "attachment; filename=\"" ++ (name ++ text "\"")
named S L dir name a z = rw (last_field-append S L b'/' dir name a) (
    c_str-Absent (text "attachment; filename=\"" ++ (name ++ text "\"")) (
      Absent-append 0 (text "attachment; filename=\"") (name ++ text "\"") (ground arith)
        (Absent-append 0 name (text "\"") z (ground arith))))

abbrev pub path_of : Text → Text → Text
path_of dir name = dir ++ (b'/' ∷ name)

-- A download, from the body of its request to the bytes of the response. When the decoded body is a path
-- between two quotes, the last part of which has no zero byte, then that path is what the control task is
-- asked for. If the file that it brings is read in any parts, the response names that last part as the
-- file's name, gives the file's length, and its bytes are those of the file.
pub download_lem :
    (S : StringApi)
    → IsLawful S
    → (urldecode : Text → Text) (req : Request) (m : Mail) (dir name : Text) (q q' : ℕ)
      (reads : List Text)
    → urldecode (concat req.chunks) ≡ q ∷ (path_of dir name ++ (q' ∷ []))
    → length (q ∷ (path_of dir name ++ (q' ∷ []))) < 2 ^ 32
    → Absent b'/' name
    → Absent 0 name
    → let asked = (handle_scp S urldecode req m).0.scp_command in
      (asked ≡ path_of dir name)
      × ((bytes : List ResCall) × ((finish_scp S asked (length (concat reads)) reads).0
            ≡ set_header
                (text "Content-Disposition")
                (text "attachment; filename=\"" ++ (name ++ text "\""))
              ∷ set_header (text "Content-Length") (c_str (S.of_int (pos (length (concat reads)))))
              ∷ bytes)
          × (body_of bytes ≡ concat reads))
unfolding handle_scp finish_scp
download_lem S L urldecode req m dir name q q' reads e h a z =
    let path = path_of dir name in
    let asked : (handle_scp S urldecode req m).0.scp_command ≡ path =
      ap (λ (fp : Text). S.substring fp 1 (sub32 (length fp) 1))
        (ap urldecode (read_body-concat [] req.chunks) ∙ e)
      ∙ unquoted S L path q q' h in
    (
      asked,
      (
        copy_file reads,
        ap (λ (p : Text). (finish_scp S p (length (concat reads)) reads).0) asked
            ∙ ap
                (λ (filename : Text).
                  set_header (text "Content-Disposition") filename
                  ∷ set_header (text "Content-Length")
                      (c_str (S.of_int (pos (length (concat reads)))))
                  ∷ copy_file reads)
                (named S L dir name a z),
        body_of-copy_file reads,
      ),
    )
