-- ===== src/Strings/Reference.antt =====
-- An implementation of the string methods that meets the hypotheses about them.
use esp.Base.{
  ltb, ◌/◌, ◌%◌, ℕ, zero, suc, ◌+◌, ◌-◌, ◌*◌, ◌≤◌, ◌≡◌, refl, inl, inr, Bool, true, false, not,
  ◌&&◌, ◌||◌, Option, none, some, [], ◌∷◌, ◌++◌, length, take, drop, All, leb, ◌==◌, if◌then◌else◌,
  take_all, leb-eq_true, arith,
}
use esp.Base.Bytes.{Text, Absent}
use esp.Base.Int.{ℤ, pos, negsuc}
use esp.Strings.{StringApi, IsLawful, IsSpace}

-- Arduino swaps the ends where the first is past the second.
unfoldable pub substring : Text → ℕ → ℕ → Text
substring s left right =
    if leb left right then take (right - left) (drop left s) else take (left - right) (drop right s)

shift : ℕ → Option ℕ → Option ℕ
shift n none = none
shift n (some i) = some (n + i)

unfoldable pub first_index : Text → ℕ → Option ℕ
unfolding shift
first_index [] c = none
first_index (x ∷ s) c = if x == c then some 0 else shift 1 (first_index s c)

unfoldable pub index_of : Text → ℕ → ℕ → Option ℕ
unfolding first_index
index_of s c from = shift from (first_index (drop from s) c)

later_or : Bool → Option ℕ → Option ℕ
later_or here (some i) = some (i + 1)
later_or here none = if here then some 0 else none

unfoldable pub last_index_of : Text → ℕ → Option ℕ
unfolding later_or
last_index_of [] c = none
last_index_of (x ∷ s) c = later_or (x == c) (last_index_of s c)

unfoldable pub is_space : ℕ → Bool
is_space c = c == 32 || (leb 9 c && leb c 13)

unfoldable pub trim_left : Text → Text
unfolding is_space
trim_left [] = []
trim_left (c ∷ s) = if is_space c then trim_left s else c ∷ s

keep_unless_blank : ℕ → Text → Text
unfolding is_space
keep_unless_blank c [] = if is_space c then [] else c ∷ []
keep_unless_blank c (d ∷ s) = c ∷ d ∷ s

unfoldable pub trim_right : Text → Text
unfolding keep_unless_blank
trim_right [] = []
trim_right (c ∷ s) = keep_unless_blank c (trim_right s)

unfoldable pub trim : Text → Text
unfolding trim_left trim_right
trim s = trim_right (trim_left s)

-- Decimal digits, with fuel for a number's own size.
print_nat : ℕ → ℕ → Text → Text
print_nat zero n acc = acc
print_nat (suc fuel) n acc =
    let digits = (48 + n % 10) ∷ acc in
    let more = print_nat fuel (n / 10) digits in if ltb n 10 then digits else more

unfoldable pub of_int : ℤ → Text
unfolding print_nat
of_int (pos n) = print_nat 11 n []
of_int (negsuc n) = b'-' ∷ print_nat 11 (n + 1) []

-- Leading digits.
unfoldable pub to_nat : ℕ → Text → ℕ
to_nat acc [] = acc
to_nat acc (c ∷ s) =
    let more = to_nat (acc * 10 + (c - 48)) s in if leb 48 c && leb c 57 then more else acc

unfoldable pub to_int : Text → ℤ
unfolding to_nat
to_int s = pos (to_nat 0 s)

unfoldable pub is_prefix : Text → Text → Bool
is_prefix [] s = true
is_prefix (c ∷ p) [] = false
is_prefix (c ∷ p) (d ∷ s) = c == d && is_prefix p s

-- `skip` bytes of the text belong to an occurrence that was replaced.
replace_from : ℕ → Text → Text → Text → Text
unfolding is_prefix
replace_from skip [] find with = []
replace_from (suc skip) (c ∷ s) find with = replace_from skip s find with
replace_from zero (c ∷ s) find with =
    if not (find_is_empty find) && is_prefix find (c ∷ s)
    then with ++ replace_from (length find - 1) s find with
    else c ∷ replace_from 0 s find with
  where
    find_is_empty : Text → Bool
    find_is_empty [] = true
    find_is_empty (_ ∷ _) = false

unfoldable pub replace : Text → Text → Text → Text
unfolding replace_from
replace s find with = replace_from 0 s find with

abbrev pub reference : StringApi
reference = record {
  substring = substring;
  index_of = index_of;
  last_index_of = last_index_of;
  trim = trim;
  to_int = to_int;
  of_int = of_int;
  replace = replace;
}

drop_prefix : (s t : Text) → drop (length s) (s ++ t) ≡ t
drop_prefix [] t = refl
drop_prefix (x ∷ s) t = drop_prefix s t

length-drop : (n : ℕ) (s : Text) → length (drop n s) ≡ length s - n
length-drop zero s = omega arith
length-drop (suc n) [] = omega arith
length-drop (suc n) (x ∷ s) = omega (arith, length-drop n s)

first_index_first :
    (s t : Text) (c : ℕ) → Absent c s → first_index (s ++ (c ∷ t)) c ≡ some (length s)
unfolding first_index shift
first_index_first [] t c a = ground arith
first_index_first (x ∷ s) t c a = ground (arith, first_index_first s t c a.1)

first_index-Absent : (s : Text) (c : ℕ) → Absent c s → first_index s c ≡ none
unfolding first_index shift
first_index-Absent [] c a = refl
first_index-Absent (x ∷ s) c a = ground (arith, first_index-Absent s c a.1)

last_index-Absent : (s : Text) (c : ℕ) → Absent c s → last_index_of s c ≡ none
unfolding last_index_of later_or
last_index-Absent [] c a = refl
last_index-Absent (x ∷ s) c a = ground (arith, last_index-Absent s c a.1)

last_index_last :
    (s t : Text) (c : ℕ) → Absent c t → last_index_of (s ++ (c ∷ t)) c ≡ some (length s)
unfolding last_index_of later_or
last_index_last [] t c a = ground (arith, last_index-Absent t c a)
last_index_last (x ∷ s) t c a = ground (arith, last_index_last s t c a)

is_space-IsSpace : (c : ℕ) → IsSpace c → is_space c ≡ true
unfolding is_space
is_space-IsSpace c h = ground arith

is_space-not : (c : ℕ) → ¬ IsSpace c → is_space c ≡ false
unfolding is_space
is_space-not c h =
    ground (arith, λ (e : c ≡ 32). h (inl e), λ (p : 9 ≤ c) (q : c ≤ 13). h (inr (p, q)))

trim_right-spaces : (s : Text) → All IsSpace s → trim_right s ≡ []
unfolding trim_right
trim_right-spaces [] h = refl
trim_right-spaces (c ∷ s) h = rw (trim_right-spaces s h.1) (ground (arith, is_space-IsSpace c h.0))

trim_right-append :
    (s behind : Text) → All (λ c. ¬ IsSpace c) s → All IsSpace behind → trim_right (s ++ behind) ≡ s
unfolding trim_right
trim_right-append [] behind h k = trim_right-spaces behind k
trim_right-append (c ∷ s) behind h k = rw (trim_right-append s behind h.1 k) (keeps c s h.0)
  where
    keeps : (c : ℕ) (s : Text) → ¬ IsSpace c → keep_unless_blank c s ≡ c ∷ s
    keeps c [] n = ground (arith, is_space-not c n)
    keeps c (d ∷ s) n = refl

trim_left-append : (before s : Text) → All IsSpace before → trim_left (before ++ s) ≡ trim_left s
unfolding trim_left
trim_left-append [] s h = refl
trim_left-append (c ∷ before) s h = rw (is_space-IsSpace c h.0) (trim_left-append before s h.1)

trim_left-spaces : (s : Text) → All IsSpace s → trim_left s ≡ []
unfolding trim_left
trim_left-spaces [] h = refl
trim_left-spaces (c ∷ s) h = rw (is_space-IsSpace c h.0) (trim_left-spaces s h.1)

trim_middle :
    (s behind : Text)
    → All (λ c. ¬ IsSpace c) s
    → All IsSpace behind
    → trim_right (trim_left (s ++ behind)) ≡ s
unfolding trim_left
trim_middle [] behind k l = rw (trim_left-spaces behind l) (trim_right-spaces [] tt)
trim_middle (c ∷ s) behind k l = rw (is_space-not c k.0) (trim_right-append (c ∷ s) behind k l)

trim_lem :
    (before s behind : Text)
    → All IsSpace before
    → All (λ c. ¬ IsSpace c) s
    → All IsSpace behind
    → trim (before ++ (s ++ behind)) ≡ s
unfolding trim
trim_lem before s behind h k l =
    rw (trim_left-append before (s ++ behind) h) (trim_middle s behind k l)

substring_in :
    (s : Text) (left right : ℕ)
    → left ≤ right
    → right ≤ length s
    → substring s left right ≡ take (right - left) (drop left s)
unfolding substring
substring_in s left right h k = ground arith

substring_past :
    (s : Text) (left right : ℕ)
    → left ≤ length s
    → length s ≤ right
    → substring s left right ≡ drop left s
unfolding substring
substring_past s left right h k =
    rw (leb-eq_true left right (omega arith))
      (take_all (right - left) (drop left s) (omega (arith, length-drop left s)))

index_of_first :
    (before s t : Text) (c : ℕ)
    → Absent c s
    → index_of (before ++ (s ++ (c ∷ t))) c (length before) ≡ some (length before + length s)
unfolding index_of shift
index_of_first before s t c a = rw (drop_prefix before (s ++ (c ∷ t)), first_index_first s t c a)

index_of-Absent :
    (before s : Text) (c : ℕ) → Absent c s → index_of (before ++ s) c (length before) ≡ none
unfolding index_of shift
index_of-Absent before s c a = rw (drop_prefix before s, first_index-Absent s c a)

-- The hypotheses about the string methods can be met.
pub reference-IsLawful : IsLawful reference
reference-IsLawful = record {
  substring_lem = substring_in;
  substring_past = substring_past;
  index_of_first = index_of_first;
  index_of-Absent = index_of-Absent;
  last_index_of_last = last_index_last;
  last_index_of-Absent = last_index-Absent;
  trim_lem = trim_lem;
}
