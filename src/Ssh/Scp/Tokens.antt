-- ===== src/Ssh/Scp/Tokens.antt =====
-- The directories of an upload.
use mathlib.Core.List.{append-nil, append_assoc}
use esp.Base.{
  false, ◌≢◌, ◌^◌, ◌≡◌, refl, ◌∙◌, sym, ap, Bool-cases, inl, inr, List, [], ◌∷◌, ◌++◌,
  if◌then◌else◌, arith, length, ◌≤◌, length-append, take-append, take_all, ◌-◌,
}
use esp.Base.Bytes.{Text, Absent, c_str-Absent}
use esp.Strings.{StringApi, IsLawful}
use esp.Ssh.Scp.{directories, is_delimiter, flush, split_tokens}

pub prepend : Text → List Text → List Text
prepend s [] = s ∷ []
prepend s (p ∷ ps) = (s ++ p) ∷ ps

-- The reference: cut at every delimiter, so that there is one piece more than delimiters,
pub pieces : Text → List Text
pieces [] = [] ∷ []
pieces (c ∷ s) = if is_delimiter c then [] ∷ pieces s else prepend (c ∷ []) (pieces s)

-- and leave out the pieces that are empty.
pub drop_empty : List Text → List Text
drop_empty [] = []
drop_empty (p ∷ ps) = flush p (drop_empty ps)

prepend-prepend : (t u : Text) (ps : List Text) → prepend t (prepend u ps) ≡ prepend (t ++ u) ps
unfolding prepend
prepend-prepend t u [] = refl
prepend-prepend t u (p ∷ ps) = ap (λ (x : Text). x ∷ ps) (sym (append_assoc t u p))

prepend-nil : (s : Text) → prepend [] (pieces s) ≡ pieces s
unfolding prepend pieces
prepend-nil [] = refl
prepend-nil (c ∷ s) = elim (Bool-cases (is_delimiter c)) [
  | inl e ↦ rw (e, pieces) refl
  | inr e ↦ rw (e, pieces) (prepend-prepend [] (c ∷ []) (pieces s))
]

split_tokens-eq : (t s : Text) → split_tokens t s ≡ drop_empty (prepend t (pieces s))
unfolding split_tokens pieces prepend drop_empty
split_tokens-eq t [] = ap (λ (x : Text). flush x []) (sym (append-nil t))
split_tokens-eq t (c ∷ s) = elim (Bool-cases (is_delimiter c)) [
  | inl e ↦ rw (e, split_tokens, pieces, split_tokens-eq [] s, prepend-nil s, append-nil t) refl
  | inr e ↦
      rw (e, split_tokens, pieces, prepend-prepend t (c ∷ []) (pieces s))
        (split_tokens-eq (t ++ (c ∷ [])) s)
]

split_tokens_lem : (s : Text) → split_tokens [] s ≡ drop_empty (pieces s)
split_tokens_lem s = split_tokens-eq [] s ∙ ap drop_empty (prepend-nil s)

-- The directories that an upload to `dir/name` makes are the pieces of `dir` between the delimiters, in
-- their order, but for those that are empty, if the name holds no slash, and `dir` has at most 255
-- bytes and no zero byte.
pub directories_lem :
    (S : StringApi) (dir name : Text)
    → IsLawful S
    → Absent b'/' name
    → Absent 0 dir
    → length dir ≤ 255
    → directories S (dir ++ (b'/' ∷ name)) ≡ drop_empty (pieces dir)
unfolding directories
directories_lem S dir name L a z h =
    let whole : length dir - 0 ≡ length dir = omega arith in
    rw
      (
        L.last_index_of_last dir name b'/' a,
        L.substring_lem (dir ++ (b'/' ∷ name)) 0 (length dir) (omega arith)
            (omega (arith, length-append dir (b'/' ∷ name))),
        whole,
        take-append dir (b'/' ∷ name),
        c_str-Absent dir z,
        take_all 255 dir h,
      )
      (split_tokens_lem dir)

-- A text without delimiters is one piece.
pieces-whole : (s : Text) → Absent b'/' s → Absent 92 s → pieces s ≡ s ∷ []
unfolding pieces prepend
pieces-whole [] a b = refl
pieces-whole (c ∷ s) a b =
    let e : is_delimiter c ≡ false = ground arith in rw (e, pieces, pieces-whole s a.1 b.1) refl

-- A path without a slash is taken for a directory.
pub directories-whole :
    (S : StringApi) (name : Text)
    → IsLawful S
    → Absent b'/' name
    → Absent 92 name
    → Absent 0 name
    → name ≢ []
    → length name ≤ 255
    → directories S name ≡ name ∷ []
unfolding directories drop_empty
directories-whole S name L a b z some_name h =
    rw
      (
        L.last_index_of-Absent name b'/' a,
        L.substring_past name 0 (2 ^ 32 - 1) (omega arith) (omega arith),
        c_str-Absent name z,
        take_all 255 name h,
        split_tokens_lem name,
        pieces-whole name a b,
      )
      (one_piece name some_name)
  where
    one_piece : (s : Text) → s ≢ [] → drop_empty (s ∷ []) ≡ s ∷ []
    one_piece [] n = absurd (n refl)
    one_piece (c ∷ s) n = refl
