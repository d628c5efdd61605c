-- ===== src/Strings.antt =====
-- What the program uses of the Arduino core's `String`, which is not in the repository. A text is
-- its bytes, with length, concatenation and equality. The searching methods are a parameter, with
-- their documented behaviour as hypotheses. An index of -1 is `none`.
pub mod Reference
pub mod LastField
use esp.Base.{
  ℕ, ◌+◌, ◌-◌, ◌^◌, ◌≤◌, ◌≡◌, ◌≢◌, ◌⊎◌, Option, none, some, [], ◌∷◌, ◌++◌, length, take, drop, All,
}
use esp.Base.Bytes.{Text, Absent}
use esp.Base.Int.{ℤ}

pub record StringApi : Type 0 where
  -- `substring(left, right)`
  pub substring : Text → ℕ → ℕ → Text
  -- `indexOf(c, from)`
  pub index_of : Text → ℕ → ℕ → Option ℕ
  -- `lastIndexOf(c)`
  pub last_index_of : Text → ℕ → Option ℕ
  -- `trim()`
  pub trim : Text → Text
  -- `toInt()`
  pub to_int : Text → ℤ
  -- `String(n)`
  pub of_int : ℤ → Text
  -- `replace(find, with)`
  pub replace : Text → Text → Text → Text

-- The bytes that `isspace` accepts.
abbrev pub IsSpace : ℕ → Type 0
IsSpace c = (c ≡ 32) ⊎ ((9 ≤ c) × (c ≤ 13))

pub record IsLawful (S : StringApi) : Type 0 where
  -- From `left` up to `right`, which is not included.
  pub substring_lem :
      (s : Text) (left right : ℕ)
      → left ≤ right
      → right ≤ length s
      → S.substring s left right ≡ take (right - left) (drop left s)
  -- An end past the text is its end.
  pub substring_past :
      (s : Text) (left right : ℕ)
      → left ≤ length s
      → length s ≤ right
      → S.substring s left right ≡ drop left s
  pub index_of_first :
      (before s t : Text) (c : ℕ)
      → Absent c s
      → S.index_of (before ++ (s ++ (c ∷ t))) c (length before) ≡ some (length before + length s)
  pub index_of-Absent :
      (before s : Text) (c : ℕ) → Absent c s → S.index_of (before ++ s) c (length before) ≡ none
  pub last_index_of_last :
      (s t : Text) (c : ℕ) → Absent c t → S.last_index_of (s ++ (c ∷ t)) c ≡ some (length s)
  pub last_index_of-Absent : (s : Text) (c : ℕ) → Absent c s → S.last_index_of s c ≡ none
  -- White space goes from both ends.
  pub trim_lem :
      (before s behind : Text)
      → All IsSpace before
      → All (λ c. ¬ IsSpace c) s
      → All IsSpace behind
      → S.trim (before ++ (s ++ behind)) ≡ s

-- `i + 1` of an index that is -1 or a position.
abbrev pub next_index : Option ℕ → ℕ
next_index none = 0
next_index (some i) = i + 1

-- The conversion of an `int` index to the `unsigned int` that `substring` takes.
abbrev pub unsigned_index : Option ℕ → ℕ
unsigned_index none = 2 ^ 32 - 1
unsigned_index (some i) = i
