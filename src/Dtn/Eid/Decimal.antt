-- ===== src/Dtn/Eid/Decimal.antt =====
-- Python's `int(s, 10)` on text and its formatting of a number, as rec/dtn/eid.py uses them. Both
-- refuse more than 4300 digits. `to_ascii` is CPython's replacement of Unicode spaces and digits by
-- ASCII ones, a parameter.
use ma_sinafadavi_claude.Prelude.{
  ℕ, zero, suc, ◌+◌, ◌-◌, ◌*◌, ◌/◌, ◌%◌, ◌≤◌, ◌<◌, Bool, true, false, ◌&&◌, ◌||◌, Option, none,
  some, [], ◌∷◌, Str, length, leb, ltb, ◌==◌, if◌then◌else◌, ◌≡◌, refl, arith, is_empty, inl, inr,
  Bool-cases, ap, ◌∙◌, codes,
}
use native.Mathlib.Nat.{zero-add}

-- `negsuc n` is -(n + 1).
pub data ℤ : Type 0 where
  pos : ℕ → ℤ
  negsuc : ℕ → ℤ

unfoldable pub is_digit : ℕ → Bool
is_digit c = leb 48 c && leb c 57

unfoldable pub is_space : ℕ → Bool
is_space c = (leb 9 c && leb c 13) || (c == 32)

unfoldable pub skip_spaces : Str → Str
skip_spaces [] = []
skip_spaces (c ∷ cs) = let rest = skip_spaces cs in if is_space c then rest else c ∷ cs

unfoldable pub drop_spaces : Str → Str
drop_spaces [] = []
drop_spaces (c ∷ cs) =
    let rest = drop_spaces cs in if is_empty rest && is_space c then [] else c ∷ rest

abbrev pub max_str_digits : ℕ
max_str_digits = 4300

-- The number, and how many digits it was written with; an underscore stands between two digits.
unfoldable pub read_digits : ℕ → ℕ → Bool → Str → Option (ℕ × ℕ)
unfolding is_digit
read_digits n count underscore [] = if (count == 0) || underscore then none else some (n, count)
read_digits n count underscore (c ∷ cs) =
    let next = read_digits (n * 10 + (c - 48)) (count + 1) false cs in
    let skip = read_digits n count true cs in
    if is_digit c
    then next
    else if (c == b'_') && (ltb 0 count && (if underscore then false else true))
    then skip
    else none

unfoldable pub read_natural : Str → Option ℕ
read_natural s = elim (read_digits 0 0 false s) [
  | none ↦ none
  | some (n, count) ↦ if leb count max_str_digits then some n else none
]

unfoldable pub negate : ℕ → ℤ
negate zero = pos 0
negate (suc n) = negsuc n

unfoldable pub read_signed : Str → Option ℤ
unfolding negate
read_signed [] = none
read_signed (c ∷ cs) =
    if c == b'-'
    then elim (read_natural cs) [ none ↦ none | some n ↦ some (negate n) ]
    else elim (read_natural (if c == b'+' then cs else c ∷ cs)) [
      | none ↦ none
      | some n ↦ some (pos n)
    ]

-- int(s, 10), where `none` is ValueError
unfoldable pub int10 : (Str → Str) → Str → Option ℤ
unfolding skip_spaces drop_spaces read_signed read_natural
int10 to_ascii s = read_signed (drop_spaces (skip_spaces (to_ascii s)))

print_digits : ℕ → ℕ → Str → Str
print_digits zero n acc = acc
print_digits (suc fuel) n acc =
    let rest = print_digits fuel (n / 10) ((48 + n % 10) ∷ acc) in
    if ltb n 10 then (48 + n) ∷ acc else rest

-- The decimal digits of a number.
unfoldable pub decimal : ℕ → Str
unfolding print_digits
decimal n = print_digits (suc n) n []

-- f"{n}", where `none` is ValueError
unfoldable pub format_int : ℕ → Option Str
format_int n =
    let digits = decimal n in if leb (length digits) max_str_digits then some digits else none

abbrev pub AreDigits : Str → Type 0
AreDigits [] = Unit
AreDigits (c ∷ cs) = (48 ≤ c) × (c ≤ 57) × AreDigits cs

AreDigits-print_digits :
    (fuel n : ℕ) (acc : Str) → AreDigits acc → AreDigits (print_digits fuel n acc)
unfolding print_digits
AreDigits-print_digits zero n acc h = h
AreDigits-print_digits (suc fuel) n acc h = ground (
  arith,
  AreDigits-print_digits fuel (n / 10) ((48 + n % 10) ∷ acc) (omega arith, omega arith, h),
)

pub AreDigits-decimal : (n : ℕ) → AreDigits (decimal n)
unfolding decimal
AreDigits-decimal n = AreDigits-print_digits (suc n) n [] tt

-- the number that digits are read as, after `n`
value_from : ℕ → Str → ℕ
value_from n [] = n
value_from n (c ∷ cs) = value_from (n * 10 + (c - 48)) cs

read_digits-digits :
    (n count : ℕ) (ds : Str)
    → AreDigits ds
    → 0 < count + length ds
    → read_digits n count false ds ≡ some (value_from n ds, count + length ds)
unfolding read_digits value_from
read_digits-digits n count [] h some_digit = ground arith
read_digits-digits n count (c ∷ cs) h some_digit =
    ground (arith, h.0, h.1, read_digits-digits (n * 10 + (c - 48)) (count + 1) cs h.2)

value_from-print_digits :
    (fuel n : ℕ) (acc : Str) → n < fuel → value_from 0 (print_digits fuel n acc) ≡ value_from n acc
unfolding print_digits value_from
value_from-print_digits zero n acc h = elim h [ ]
value_from-print_digits (suc fuel) n acc h = elim (Bool-cases (ltb n 10)) [
  | inl small ↦ rw small (ap (λ (k : ℕ). value_from k acc) (omega arith))
  | inr large ↦ rw large (
      value_from-print_digits fuel (n / 10) ((48 + n % 10) ∷ acc) (ground arith)
      ∙ ap (λ (k : ℕ). value_from k acc) (omega arith))
]

print_digits-ne-nil : (fuel n : ℕ) (acc : Str) → n < fuel → 0 < length (print_digits fuel n acc)
unfolding print_digits
print_digits-ne-nil zero n acc h = elim h [ ]
print_digits-ne-nil (suc fuel) n acc h = elim (Bool-cases (ltb n 10)) [
  | inl small ↦ rw small (omega arith)
  | inr large ↦ rw large (print_digits-ne-nil fuel (n / 10) ((48 + n % 10) ∷ acc) (ground arith))
]

pub decimal_pos : (n : ℕ) → 0 < length (decimal n)
unfolding decimal
decimal_pos n = print_digits-ne-nil (suc n) n [] (omega arith)

read_digits-decimal : (n : ℕ) → read_digits 0 0 false (decimal n) ≡ some (n, length (decimal n))
read_digits-decimal n =
    rw (read_digits-digits 0 0 (decimal n) (AreDigits-decimal n) (rw zero-add (decimal_pos n))) (
      unfold decimal value_from in
      rw (value_from-print_digits (suc n) n [] (omega arith)) (rw zero-add))

drop_spaces-digits : (ds : Str) → AreDigits ds → drop_spaces ds ≡ ds
unfolding drop_spaces is_space
drop_spaces-digits [] h = refl
drop_spaces-digits (c ∷ cs) h = ground (arith, h.0, h.1, drop_spaces-digits cs h.2)

skip_spaces-digits : (ds : Str) → AreDigits ds → skip_spaces ds ≡ ds
unfolding skip_spaces is_space
skip_spaces-digits [] h = refl
skip_spaces-digits (c ∷ cs) h = ground (arith, h.0, h.1)

read_signed-digits :
    (ds : Str) (n : ℕ)
    → AreDigits ds
    → 0 < length ds
    → read_natural ds ≡ some n
    → read_signed ds ≡ some (pos n)
unfolding read_signed
read_signed-digits [] n h p e = absurd (omega arith)
read_signed-digits (c ∷ cs) n h p e = ground (arith, h.0, h.1)

read_natural-decimal :
    (n : ℕ) → length (decimal n) ≤ max_str_digits → read_natural (decimal n) ≡ some n
unfolding read_natural
read_natural-decimal n h = ground (arith, read_digits-decimal n)

-- What is printed is read back, up to the limit on digits; both fail past it.
pub int10-decimal :
    (to_ascii : Str → Str) (n : ℕ)
    → to_ascii (decimal n) ≡ decimal n
    → length (decimal n) ≤ max_str_digits
    → int10 to_ascii (decimal n) ≡ some (pos n)
unfolding int10
int10-decimal to_ascii n e h =
    rw
      (
        e,
        skip_spaces-digits (decimal n) (AreDigits-decimal n),
        drop_spaces-digits (decimal n) (AreDigits-decimal n),
      )
      (read_signed-digits (decimal n) n (AreDigits-decimal n) (decimal_pos n)
        (read_natural-decimal n h))

minus_42 : int10 (λ s. s) (codes " -4_2 ") ≡ some (negsuc 41)
unfolding int10 read_digits is_space
minus_42 = refl
