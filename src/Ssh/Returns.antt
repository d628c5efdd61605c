-- ===== src/Ssh/Returns.antt =====
-- Statements about the result of a computation.
use esp.Base.{refl, ◌≡◌, ◌≤◌, length, arith}
use esp.Ssh.{Log, M, Outcome, done, undefined, out_of_fuel, continue}

-- What holds of the result, if there is one.
abbrev pub Returns : {A : Type 0} → (A → Type 0) → Outcome A → Type 0
Returns P (done a log) = P a
Returns P undefined = Unit
Returns P out_of_fuel = Unit

pub Returns-continue :
    {A B : Type 0} (P : B → Type 0) (m : Outcome A) (f : A → M B)
    → ((a : A) (log : Log) → Returns P (f a log))
    → Returns P (continue m f)
Returns-continue P (done a log) f h = h a log
Returns-continue P undefined f h = tt
Returns-continue P out_of_fuel f h = tt

pub Returns-then :
    {A B : Type 0} (Q : A → Type 0) (P : B → Type 0) (m : Outcome A) (f : A → M B)
    → Returns Q m
    → ((a : A) (log : Log) → Q a → Returns P (f a log))
    → Returns P (continue m f)
Returns-then Q P (done a log) f q h = h a log q
Returns-then Q P undefined f q h = tt
Returns-then Q P out_of_fuel f q h = tt

-- It ends, and not before the log that it started with.
abbrev pub Grows : {A : Type 0} → Log → Outcome A → Type 0
Grows before (done a log) = length before ≤ length log
Grows before undefined = ⊥
Grows before out_of_fuel = ⊥

pub Grows-continue :
    {A B : Type 0} (before : Log) (m : Outcome A) (f : A → M B)
    → Grows before m
    → ((a : A) (log : Log) → length before ≤ length log → Grows before (f a log))
    → Grows before (continue m f)
Grows-continue before (done a log) f g h = h a log g
Grows-continue before undefined f g h = absurd g
Grows-continue before out_of_fuel f g h = absurd g

pub Grows-from :
    {A : Type 0} (before log : Log) (m : Outcome A)
    → length before ≤ length log
    → Grows log m
    → Grows before m
Grows-from before log (done a after) h g = omega arith
Grows-from before log undefined h g = g
Grows-from before log out_of_fuel h g = g

-- What holds of the result and the log, if it ends.
abbrev pub Ensures : {A : Type 0} → (A → Log → Type 0) → Outcome A → Type 0
Ensures P (done a log) = P a log
Ensures P undefined = Unit
Ensures P out_of_fuel = Unit

pub Ensures-continue :
    {A B : Type 0} (Q : A → Log → Type 0) (P : B → Log → Type 0) (m : Outcome A) (f : A → M B)
    → Ensures Q m
    → ((a : A) (log : Log) → Q a log → Ensures P (f a log))
    → Ensures P (continue m f)
Ensures-continue Q P (done a log) f q h = h a log q
Ensures-continue Q P undefined f q h = tt
Ensures-continue Q P out_of_fuel f q h = tt

pub Ensures-always :
    {A : Type 0} (P : A → Log → Type 0) (m : Outcome A)
    → ((a : A) (log : Log) → P a log)
    → Ensures P m
Ensures-always P (done a log) h = h a log
Ensures-always P undefined h = tt
Ensures-always P out_of_fuel h = tt

-- What it ends with is what it ends with.
pub Ensures-done :
    {A : Type 0} (P : A → Log → Type 0) (m : Outcome A)
    → ((a : A) (log : Log) → m ≡ done a log → P a log)
    → Ensures P m
Ensures-done P (done a log) h = h a log refl
Ensures-done P undefined h = tt
Ensures-done P out_of_fuel h = tt
