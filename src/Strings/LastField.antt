-- ===== src/Strings/LastField.antt =====
-- `s.substring(s.lastIndexOf(c) + 1, s.length())`, which the program uses to cut off what stands
-- before a separator.
use esp.Base.{
  ℕ, suc, ◌+◌, ◌≡◌, refl, ap, ◌∙◌, ◌⊎◌, inl, inr, [], ◌∷◌, ◌++◌, length, drop, length-append, ◌==◌,
  Bool-cases, arith,
}
use esp.Base.Bytes.{Text, Absent}
use esp.Strings.{StringApi, IsLawful, next_index}

unfoldable pub last_field : StringApi → ℕ → Text → Text
last_field S c s = S.substring s (next_index (S.last_index_of s c)) (length s)

-- Every text has a last separator or none.
pub split_last :
    (c : ℕ) (s : Text) → Absent c s ⊎ ((p : Text) × (t : Text) × (s ≡ p ++ (c ∷ t)) × Absent c t)
split_last c [] = inl tt
split_last c (x ∷ s) = elim (split_last c s) [
  | inr (p, t, e, a) ↦ inr (x ∷ p, t, ap (◌∷◌ x) e, a)
  | inl a ↦ elim (Bool-cases (x == c)) [
    | inl e ↦ inr ([], s, ap (λ y. y ∷ s) (ground arith), a)
    | inr n ↦ inl (ground arith, a)
  ]
]

drop_past : (s t : Text) (c : ℕ) → drop (length s + 1) (s ++ (c ∷ t)) ≡ t
drop_past [] t c = refl
drop_past (x ∷ s) t c =
    let e : length (x ∷ s) + 1 ≡ suc (length s + 1) = omega arith in rw e (drop_past s t c)

module _ (S : StringApi) (L : IsLawful S) (c : ℕ) where
  pub last_field-Absent : (s : Text) → Absent c s → last_field S c s ≡ s
  unfolding last_field
  last_field-Absent s a =
      rw (L.last_index_of-Absent s c a, last_field)
        (L.substring_past s 0 (length s) (omega arith) (omega arith))

  pub last_field-append : (s t : Text) → Absent c t → last_field S c (s ++ (c ∷ t)) ≡ t
  unfolding last_field
  last_field-append s t a =
      rw (L.last_index_of_last s t c a, last_field)
        (L.substring_past (s ++ (c ∷ t)) (length s + 1) (length (s ++ (c ∷ t)))
            (omega (arith, length-append s (c ∷ t))) (omega arith)
          ∙ drop_past s t c)

  -- The result never holds the separator.
  pub Absent-last_field : (s : Text) → Absent c (last_field S c s)
  Absent-last_field s = elim (split_last c s) [
    | inl a ↦ rw (last_field-Absent s a) a
    | inr (p, t, e, a) ↦ rw (e, last_field-append p t a) a
  ]
