-- ===== src/Clients/Counts.antt =====
-- How insertion and removal change what stands in the slots.
use esp.Base.{
  suc, ℕ, ◌+◌, ◌≤◌, ◌≡◌, refl, ap, Option, none, some, List, [], ◌∷◌, length, ◌==◌, if◌then◌else◌,
  ltb, arith,
}
use esp.Clients.{insert_first, clear_all, recipients}

abbrev pub count : ℕ → List ℕ → ℕ
count a [] = 0
count a (x ∷ xs) = (if a == x then 1 else 0) + count a xs

pub length-insert_first : (h : ℕ) (s : List (Option ℕ)) → length (insert_first h s) ≡ length s
unfolding insert_first
length-insert_first h [] = refl
length-insert_first h (none ∷ s) = refl
length-insert_first h (some x ∷ s) = ap suc (length-insert_first h s)

pub length-clear_all : (h : ℕ) (s : List (Option ℕ)) → length (clear_all h s) ≡ length s
unfolding clear_all
length-clear_all h [] = refl
length-clear_all h (o ∷ s) = ap suc (length-clear_all h s)

pub length-recipients-le : (s : List (Option ℕ)) → length (recipients s) ≤ length s
unfolding recipients
length-recipients-le [] = omega arith
length-recipients-le (none ∷ s) = omega (arith, length-recipients-le s)
length-recipients-le (some x ∷ s) = omega (arith, length-recipients-le s)

-- The client enters once if a slot is free, and else the table stays.
pub count-insert_first :
    (a h : ℕ) (s : List (Option ℕ))
    → count a (recipients (insert_first h s)) ≡ (
        if ltb (length (recipients s)) (length s)
        then count a (h ∷ recipients s)
        else count a (recipients s))
unfolding insert_first recipients
count-insert_first a h [] = refl
count-insert_first a h (none ∷ s) = ground (arith, length-recipients-le s)
count-insert_first a h (some x ∷ s) = ground (arith, count-insert_first a h s)

pub size-insert_first :
    (h : ℕ) (s : List (Option ℕ))
    → length (recipients (insert_first h s)) ≡ (
        if ltb (length (recipients s)) (length s)
        then length (recipients s) + 1
        else length (recipients s))
unfolding insert_first recipients
size-insert_first h [] = refl
size-insert_first h (none ∷ s) = ground (arith, length-recipients-le s)
size-insert_first h (some x ∷ s) = ground (arith, size-insert_first h s)

pub count-clear_all :
    (a h : ℕ) (s : List (Option ℕ))
    → count a (recipients (clear_all h s)) ≡ (if a == h then 0 else count a (recipients s))
unfolding clear_all recipients
count-clear_all a h [] = ground arith
count-clear_all a h (none ∷ s) = count-clear_all a h s
count-clear_all a h (some x ∷ s) = ground (arith, count-clear_all a h s)

pub size-clear_all :
    (h : ℕ) (s : List (Option ℕ))
    → length (recipients (clear_all h s)) + count h (recipients s) ≡ length (recipients s)
unfolding clear_all recipients
size-clear_all h [] = refl
size-clear_all h (none ∷ s) = size-clear_all h s
size-clear_all h (some x ∷ s) = ground (arith, size-clear_all h s)
