-- ===== src/Setup/Hosts.antt =====
-- The lines of the settings file are read back as the hosts that they were written for.
use esp.Base.{
  ℕ, ◌+◌, ◌-◌, ◌≤◌, ◌≡◌, refl, sym, ap, ap₂, ◌∙◌, false, some, List, [], ◌∷◌, ◌++◌, map, length,
  take, drop, take-append, drop-append, length-append, All, ◌==◌, arith, ◌^◌,
}
use mathlib.Core.List.{append-nil, append_assoc}
use esp.Base.Bytes.{Text, c_str, c_str-Absent, Absent}
use esp.Strings.{StringApi, IsLawful, IsSpace}
use esp.Setup.{Host, split_line, read_hosts}

abbrev pub comma : ℕ
comma = b','

-- Nothing in the text is white space, nor a zero byte.
abbrev pub IsWord : Text → Type 0
IsWord s = All (λ c. ¬ IsSpace c) s × Absent 0 s

pub record IsHost (h : Host) : Type 0 where
  pub host_word : IsWord h.host
  pub host_no_comma : Absent comma h.host
  pub user_word : IsWord h.user
  pub user_no_comma : Absent comma h.user
  pub password_word : IsWord h.password

abbrev pub print_host : Host → Text
print_host h = h.host ++ (comma ∷ (h.user ++ (comma ∷ h.password)))

All-append : (P : ℕ → Type 0) (s t : Text) → All P s → All P t → All P (s ++ t)
All-append P [] t a b = b
All-append P (x ∷ s) t a b = (a.0, All-append P s t a.1 b)

comma-IsSpace : ¬ IsSpace comma
comma-IsSpace h = omega arith

module _ (S : StringApi) (L : IsLawful S) where
  trim_word : (s : Text) → IsWord s → c_str (S.trim s) ≡ s
  trim_word s w =
      rw (ap S.trim (sym (append-nil s)) ∙ L.trim_lem [] s [] tt w.0 tt) (c_str-Absent s w.1)

  module _ (h : Host) (v : IsHost h) where
    line_regrouped : print_host h ≡ (h.host ++ (comma ∷ [])) ++ (h.user ++ (comma ∷ h.password))
    line_regrouped = sym (append_assoc h.host (comma ∷ []) (h.user ++ (comma ∷ h.password)))

    before_user : length (h.host ++ (comma ∷ [])) ≡ length h.host + 1
    before_user = omega (arith, length-append h.host (comma ∷ []))

    first_comma : S.index_of (print_host h) comma 0 ≡ some (length h.host)
    first_comma =
        L.index_of_first [] h.host (h.user ++ (comma ∷ h.password)) comma v.host_no_comma
        ∙ ap some (omega arith)

    second_comma :
        S.index_of (print_host h) comma (length h.host + 1)
        ≡ some (length h.host + 1 + length h.user)
    second_comma =
        rw (line_regrouped, ← before_user)
          (L.index_of_first (h.host ++ (comma ∷ [])) h.user h.password comma v.user_no_comma)

    length_line : length (print_host h) ≡ length h.host + 1 + length h.user + 1 + length h.password
    length_line = omega (
      arith,
      length-append h.host (comma ∷ (h.user ++ (comma ∷ h.password))),
      length-append h.user (comma ∷ h.password),
    )

    host_part : S.substring (print_host h) 0 (length h.host) ≡ h.host
    host_part =
        L.substring_lem (print_host h) 0 (length h.host) (omega arith) (omega (arith, length_line))
        ∙ ap (λ n. take n (print_host h)) (omega arith)
        ∙ take-append h.host (comma ∷ (h.user ++ (comma ∷ h.password)))

    drop_host : drop (length h.host + 1) (print_host h) ≡ h.user ++ (comma ∷ h.password)
    drop_host =
        rw (line_regrouped, ← before_user)
          (drop-append (h.host ++ (comma ∷ [])) (h.user ++ (comma ∷ h.password)))

    user_part :
        S.substring (print_host h) (length h.host + 1) (length h.host + 1 + length h.user) ≡ h.user
    user_part =
        L.substring_lem (print_host h) (length h.host + 1) (length h.host + 1 + length h.user)
          (omega arith) (omega (arith, length_line))
        ∙ ap₂ take (omega arith) drop_host
        ∙ take-append h.user (comma ∷ h.password)

    password_part :
        S.substring (print_host h) (length h.host + 1 + length h.user + 1) (length (print_host h))
        ≡ h.password
    password_part =
        L.substring_past (print_host h) (length h.host + 1 + length h.user + 1)
          (length (print_host h)) (omega (arith, length_line)) (omega arith)
        ∙ rw (line_regrouped_twice, ← before_password)
            (drop-append ((h.host ++ (comma ∷ [])) ++ (h.user ++ (comma ∷ []))) h.password)
      where
        line_regrouped_twice :
            print_host h ≡ ((h.host ++ (comma ∷ [])) ++ (h.user ++ (comma ∷ []))) ++ h.password
        line_regrouped_twice = simp append_assoc

        before_password :
            length ((h.host ++ (comma ∷ [])) ++ (h.user ++ (comma ∷ [])))
            ≡ length h.host + 1 + length h.user + 1
        before_password = omega (
          arith,
          length-append (h.host ++ (comma ∷ [])) (h.user ++ (comma ∷ [])),
          length-append h.user (comma ∷ []),
          before_user,
        )

    -- The line of a host is split into its three fields again.
    pub split_line-print_host : split_line S (print_host h) ≡ h
    unfolding split_line
    split_line-print_host =
        rw (first_comma, split_line, second_comma, host_part, user_part, password_part)
          (rw
            (
              trim_word h.host v.host_word,
              trim_word h.user v.user_word,
              trim_word h.password v.password_word,
            )
            refl)

-- A line of the file: blank, or a host with white space at both ends.
pub data Line : Type 0 where
  blank : Text → Line
  entry : Text → Host → Text → Line

abbrev pub print_line : Line → Text
print_line (blank spaces) = spaces
print_line (entry before h behind) = before ++ (print_host h ++ behind)

abbrev pub IsLine : Line → Type 0
IsLine (blank spaces) = All IsSpace spaces
IsLine (entry before h behind) = All IsSpace before × IsHost h × All IsSpace behind

abbrev pub hosts_of : List Line → List Host
hosts_of [] = []
hosts_of (blank spaces ∷ lines) = hosts_of lines
hosts_of (entry before h behind ∷ lines) = h ∷ hosts_of lines

print_host-NoSpace : (h : Host) → IsHost h → All (λ c. ¬ IsSpace c) (print_host h)
print_host-NoSpace h v =
    All-append (λ c. ¬ IsSpace c) h.host _ v.host_word.0
      (
        comma-IsSpace,
        All-append (λ c. ¬ IsSpace c) h.user _ v.user_word.0 (comma-IsSpace, v.password_word.0),
      )

module _ (S : StringApi) (L : IsLawful S) where
  trim_blank : (spaces : Text) → All IsSpace spaces → S.trim spaces ≡ []
  trim_blank spaces b = ap S.trim (sym (append-nil spaces)) ∙ L.trim_lem spaces [] [] b tt tt

  -- From the lines of a file that `readStringUntil` returns, the hosts that were written to it are
  -- read in their order, and blank lines are passed over. A host's fields hold no white space and no
  -- zero byte, and the first two no comma; white space at the ends of a line does not count.
  pub read_hosts-print :
      (acc : List Host) (lines : List Line)
      → All IsLine lines
      → read_hosts S acc (map print_line lines) ≡ acc ++ hosts_of lines
  unfolding read_hosts
  read_hosts-print acc [] v = sym (append-nil acc)
  read_hosts-print acc (blank spaces ∷ lines) v =
      rw (trim_blank spaces v.0, read_hosts) (read_hosts-print acc lines v.1)
  read_hosts-print acc (entry before h behind ∷ lines) v =
      let word = v.0 in
      rw
        (
          L.trim_lem before (print_host h) behind word.0 (print_host-NoSpace h word.1) word.2,
          read_hosts,
          line_not_empty h,
          split_line-print_host S L h word.1,
        )
        (read_hosts-print (acc ++ (h ∷ [])) lines v.1 ∙ append_assoc acc (h ∷ []) (hosts_of lines))
    where
      line_not_empty : (h : Host) → (length (print_host h) == 0) ≡ false
      line_not_empty h =
          let n = length-append h.host (comma ∷ (h.user ++ (comma ∷ h.password))) in
          ground (arith, n)

  -- A line that holds no comma is taken as a host all the same: its whole text is the host, the user and
  -- the password.
  split_line_without_comma :
      (line : Text)
      → IsWord line
      → Absent comma line
      → length line ≤ 2 ^ 32 - 1
      → split_line S line ≡ record { host = line; user = line; password = line }
  unfolding split_line
  split_line_without_comma line w a short =
      let whole = L.substring_past line 0 (2 ^ 32 - 1) (omega arith) short in
      rw
        (
          L.index_of-Absent [] line comma a,
          split_line,
          L.index_of-Absent [] line comma a,
          whole,
          L.substring_past line 0 (length line) (omega arith) (omega arith),
          trim_word S L line w,
        )
        refl
