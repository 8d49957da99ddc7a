-- ===== src/Plan/Validate/Timeout.antt =====
-- crates/hull-ci-plan/src/validate.rs: which timeouts are read, and as what.
use hull_ci.Base.{
  ℕ, zero, suc, ◌+◌, ◌*◌, ◌/◌, ◌%◌, ◌^◌, ◌≤◌, ◌<◌, ◌≡◌, ◌≢◌, refl, true, [], ◌∷◌, ◌++◌, Option,
  none, some, Text, decimal, decimal_fuel, ltb, ◌==◌, arith, Bool-cases, inl, inr, ◌∙◌, ap,
}
use hull_ci.Plan.Error.{ok}
use hull_ci.Plan.Validate.{
  max_timeout_hours, is_ascii_digit, split_last, u64_mod, fits_u64, digits_from, parse_u64, seconds,
  within_ceiling, timeout_of, timeout_parts, parse_timeout,
}

within_ceiling_bounds :
    (raw : Text) (o : Option ℕ) (secs : ℕ)
    → ((m : ℕ) → o ≡ some m → 1 ≤ m)
    → within_ceiling raw o ≡ ok secs
    → (1 ≤ secs) × (secs ≤ max_timeout_hours * 3600)
unfolding within_ceiling
within_ceiling_bounds raw none secs pos h = absurd (ground arith)
within_ceiling_bounds raw (some m) secs pos h = ground (arith, pos m refl)

seconds_pos : (unit n m : ℕ) → n ≢ 0 → seconds unit n ≡ some m → 1 ≤ m
unfolding seconds fits_u64
seconds_pos unit n m h e = ground arith

timeout_of_bounds :
    (raw : Text) (unit : ℕ) (o : Option ℕ) (secs : ℕ)
    → timeout_of raw unit o ≡ ok secs
    → (1 ≤ secs) × (secs ≤ max_timeout_hours * 3600)
unfolding timeout_of
timeout_of_bounds raw unit none secs h = absurd (ground arith)
timeout_of_bounds raw unit (some n) secs h = elim (Bool-cases (n == 0)) [
  | inl e ↦ let no = rw e at h in absurd (ground arith)
  | inr e ↦
      within_ceiling_bounds raw (seconds unit n) secs (λ m f. seconds_pos unit n m (ground arith) f)
        (rw e at h)
]

parts_bounds :
    (raw : Text) (o : Option (Text × ℕ)) (secs : ℕ)
    → timeout_parts raw o ≡ ok secs
    → (1 ≤ secs) × (secs ≤ max_timeout_hours * 3600)
unfolding timeout_parts
parts_bounds raw none secs h = absurd (ground arith)
parts_bounds raw (some (digits, unit)) secs h = timeout_of_bounds raw unit (parse_u64 digits) secs h

-- Any timeout that is read is a second at least and a day at most.
pub parse_timeout_bounds :
    (raw : Text) (secs : ℕ)
    → parse_timeout raw ≡ ok secs
    → (1 ≤ secs) × (secs ≤ max_timeout_hours * 3600)
unfolding parse_timeout
parse_timeout_bounds raw secs h = parts_bounds raw (split_last raw) secs h

split_last-snoc : (xs : Text) (c : ℕ) → split_last (xs ++ c ∷ []) ≡ some (xs, c)
unfolding split_last
split_last-snoc [] c = refl
split_last-snoc (x ∷ xs) c = rw (split_last-snoc xs c) refl

digit-of : (n : ℕ) → n < 10 → is_ascii_digit (48 + n) ≡ true
unfolding is_ascii_digit
digit-of n h = ground arith

-- Reading a digit goes on with the value that it makes.
digits_from-step :
    (value d : ℕ) (cs : Text)
    → d < 10
    → value * 10 + d < 2 ^ 64
    → digits_from value ((48 + d) ∷ cs) ≡ digits_from (value * 10 + d) cs
unfolding digits_from u64_mod
digits_from-step value d cs h k = ground (arith, digit-of d)

zero-plus : (n : ℕ) → 0 * 10 + n ≡ n
zero-plus n = omega arith

-- The digits that the printer puts down are read as its number.
digits_from-decimal_fuel :
    (f n : ℕ) (acc : Text)
    → n < f
    → n < 2 ^ 64
    → digits_from 0 (decimal_fuel f n acc) ≡ digits_from n acc
unfolding decimal_fuel
digits_from-decimal_fuel zero n acc h k = absurd (omega arith)
digits_from-decimal_fuel (suc f) n acc h k = elim (Bool-cases (ltb n 10)) [
  | inl e ↦ rw e (
      digits_from-step 0 n acc (ground arith) (omega arith)
      ∙ ap (λ (m : ℕ). digits_from m acc) (zero-plus n))
  | inr e ↦ rw e (
      digits_from-decimal_fuel f (n / 10) ((48 + n % 10) ∷ acc) (ground arith) (omega arith)
      ∙ digits_from-step (n / 10) (n % 10) acc (omega arith) (omega arith)
      ∙ ap (λ (m : ℕ). digits_from m acc) (ground arith))
]

nothing_more : (n : ℕ) → digits_from n [] ≡ some n
unfolding digits_from
nothing_more n = refl

parse_u64-digits : (t : Text) (n : ℕ) → 0 < n → digits_from 0 t ≡ some n → parse_u64 t ≡ some n
unfolding parse_u64 digits_from is_ascii_digit
parse_u64-digits [] n h e = absurd (ground arith)
parse_u64-digits (c ∷ []) n h e = e
parse_u64-digits (c ∷ d ∷ ds) n h e = ground arith

parse_u64-decimal : (n : ℕ) → 0 < n → n < 2 ^ 64 → parse_u64 (decimal n) ≡ some n
unfolding decimal
parse_u64-decimal n h k =
    parse_u64-digits (decimal_fuel (suc n) n []) n h
      (digits_from-decimal_fuel (suc n) n [] (omega arith) k ∙ nothing_more n)

-- The seconds that a unit stands for: a second, a minute or an hour.
pub data UnitOf : ℕ → ℕ → Type 0 where
  second : UnitOf b's' 1
  minute : UnitOf b'm' 60
  hour : UnitOf b'h' 3600

seconds-UnitOf :
    (unit size n : ℕ)
    → UnitOf unit size
    → n * size ≤ max_timeout_hours * 3600
    → seconds unit n ≡ some (n * size)
unfolding seconds fits_u64 u64_mod
seconds-UnitOf unit size n second h = ground arith
seconds-UnitOf unit size n minute h = ground arith
seconds-UnitOf unit size n hour h = ground arith

timeout_of-read :
    (raw : Text) (unit size n : ℕ)
    → UnitOf unit size
    → 0 < n
    → n * size ≤ max_timeout_hours * 3600
    → timeout_of raw unit (some n) ≡ ok (n * size)
unfolding timeout_of within_ceiling
timeout_of-read raw unit size n w h k = rw (seconds-UnitOf unit size n w k) (ground arith)

UnitOf_pos : (unit size n : ℕ) → UnitOf unit size → n ≤ n * size
UnitOf_pos unit size n second = omega arith
UnitOf_pos unit size n minute = omega arith
UnitOf_pos unit size n hour = omega arith

-- A positive number of seconds, minutes or hours, written in decimal digits and followed by `s`, `m` or
-- `h`, is read as that duration, if it is no longer than a day.
pub parse_timeout-decimal :
    (unit size n : ℕ)
    → UnitOf unit size
    → 0 < n
    → n * size ≤ max_timeout_hours * 3600
    → parse_timeout (decimal n ++ unit ∷ []) ≡ ok (n * size)
unfolding parse_timeout timeout_parts
parse_timeout-decimal unit size n w h k =
    rw
      (
        split_last-snoc (decimal n) unit,
        timeout_parts,
        parse_u64-decimal n h (omega (arith, UnitOf_pos unit size n w)),
      )
      (timeout_of-read (decimal n ++ unit ∷ []) unit size n w h k)
