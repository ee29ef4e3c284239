-- ===== src/Prelude/Lists.antt =====
-- Texts and bytes as lists of numbers, with the list functions that Python's `str`, `list`,
-- `dict` and `set` come down to.
use Prim.Native.Nat.{ℕ, zero, suc, ◌+◌}
use Prim.Native.Char.{code}
use Prim.Native.String.{String}
use mathlib.Core.Path.{◌≡◌, refl}
use mathlib.Core.Logic.{◌↔◌}
use mathlib.Core.Bool.{Bool, true, false, ◌&&◌, ◌||◌}
use mathlib.Core.Option.{Option, none, some}
use mathlib.Core.List.{List, [], ◌∷◌, ◌++◌}
use native.Mathlib.Omega.{arith}
use ma_sinafadavi_claude.Prelude.Tests.{◌==◌, if◌then◌else◌}

-- A text is the list of its code points, and binary data the list of its bytes.
abbrev pub Str : Type 0
Str = List ℕ

abbrev pub Bytes : Type 0
Bytes = List ℕ

abbrev pub codes : String → Str
codes String.[] = []
codes (String.◌∷◌ c s) = code c ∷ codes s

module _ {ℓ} {A : Type ℓ} where
  abbrev pub length : List A → ℕ
  length [] = 0
  length (x ∷ xs) = suc (length xs)

  abbrev pub drop : ℕ → List A → List A
  drop zero xs = xs
  drop (suc n) [] = []
  drop (suc n) (x ∷ xs) = drop n xs

  abbrev pub take : ℕ → List A → List A
  take zero xs = []
  take (suc n) [] = []
  take (suc n) (x ∷ xs) = x ∷ take n xs

  abbrev pub is_empty : List A → Bool
  is_empty [] = true
  is_empty (x ∷ xs) = false

  pub length-append : (xs ys : List A) → length (xs ++ ys) ≡ length xs + length ys
  length-append [] ys = omega arith
  length-append (x ∷ xs) ys = omega (arith, length-append xs ys)

  pub take-append : (xs ys : List A) → take (length xs) (xs ++ ys) ≡ xs
  take-append [] ys = refl
  take-append (x ∷ xs) ys = λ i. x ∷ take-append xs ys i

  pub drop-append : (xs ys : List A) → drop (length xs) (xs ++ ys) ≡ ys
  drop-append [] ys = refl
  drop-append (x ∷ xs) ys = drop-append xs ys

  -- The members that pass a test, in order.
  unfoldable pub keep : (A → Bool) → List A → List A
  keep p [] = []
  keep p (x ∷ xs) = let rest = keep p xs in if p x then x ∷ rest else rest

unfoldable pub str_eq : Str → Str → Bool
str_eq [] [] = true
str_eq [] (y ∷ ys) = false
str_eq (x ∷ xs) [] = false
str_eq (x ∷ xs) (y ∷ ys) = (x == y) && str_eq xs ys

str_eq_to : (xs ys : Str) → str_eq xs ys ≡ true → xs ≡ ys
unfolding str_eq
str_eq_to [] [] h = refl
str_eq_to [] (y ∷ ys) h = ground arith
str_eq_to (x ∷ xs) [] h = ground arith
str_eq_to (x ∷ xs) (y ∷ ys) h = ground (arith, str_eq_to xs ys)

pub str_eq_self : (xs : Str) → str_eq xs xs ≡ true
unfolding str_eq
str_eq_self [] = refl
str_eq_self (x ∷ xs) = ground (arith, str_eq_self xs)

pub str_eq_iff : (xs ys : Str) → (str_eq xs ys ≡ true) ↔ (xs ≡ ys)
str_eq_iff xs ys = (str_eq_to xs ys, λ h. rw h (str_eq_self ys))

-- s.startswith(p)
unfoldable pub starts_with : Str → Str → Bool
starts_with s [] = true
starts_with [] (y ∷ p) = false
starts_with (x ∷ s) (y ∷ p) = (x == y) && starts_with s p

pub starts_with-append : (p s : Str) → starts_with (p ++ s) p ≡ true
unfolding starts_with
starts_with-append [] s = refl
starts_with-append (x ∷ p) s = ground (arith, starts_with-append p s)

-- x in xs, on texts
unfoldable pub member : Str → List Str → Bool
member x [] = false
member x (y ∷ ys) = str_eq y x || member x ys

-- set(xs), in the order of the last occurrences
unfoldable pub dedup : List Str → List Str
dedup [] = []
dedup (x ∷ xs) = let rest = dedup xs in if member x rest then rest else x ∷ rest

pub member-dedup : (x : Str) (xs : List Str) → member x (dedup xs) ≡ member x xs
unfolding member dedup
member-dedup x [] = refl
member-dedup x (y ∷ ys) = ground (arith, member-dedup x ys, str_eq_iff y x, member-dedup y ys)

pub member-append :
    (x : Str) (xs ys : List Str) → member x (xs ++ ys) ≡ (member x xs || member x ys)
unfolding member
member-append x [] ys = refl
member-append x (y ∷ xs) ys = ground (arith, member-append x xs ys)

pub member-keep :
    (p : Str → Bool) (x : Str) (xs : List Str) → member x (keep p xs) ≡ (member x xs && p x)
unfolding member keep
member-keep p x [] = refl
member-keep p x (y ∷ xs) = ground (arith, member-keep p x xs, str_eq_iff y x)

-- A Python dict with text keys, as its items in order.
module _ {ℓ} {V : Type ℓ} where
  unfoldable pub keys : List (Str × V) → List Str
  keys [] = []
  keys ((k, v) ∷ m) = k ∷ keys m

  unfoldable pub values : List (Str × V) → List V
  values [] = []
  values ((k, v) ∷ m) = v ∷ values m

  -- d.get(k)
  unfoldable pub lookup : Str → List (Str × V) → Option V
  lookup key [] = none
  lookup key ((name, v) ∷ d) = if str_eq name key then some v else lookup key d

  -- d[k] = v: an old key keeps its place
  unfoldable pub insert : Str → V → List (Str × V) → List (Str × V)
  insert k v [] = (k, v) ∷ []
  insert k v ((j, w) ∷ m) = if str_eq j k then (j, v) ∷ m else (j, w) ∷ insert k v m

  -- d.pop(k, None)
  unfoldable pub remove : Str → List (Str × V) → List (Str × V)
  remove k [] = []
  remove k ((j, w) ∷ m) = let rest = remove k m in if str_eq j k then rest else (j, w) ∷ rest

  -- The key that is written gives its new value, and every other key what it gave.
  pub lookup-insert :
      (new key : Str) (v : V) (d : List (Str × V))
      → lookup key (insert new v d) ≡ (if str_eq new key then some v else lookup key d)
  unfolding insert lookup
  lookup-insert new key v [] = ground arith
  lookup-insert new key v (e ∷ d) =
      ground (
        arith,
        lookup-insert new key v d,
        str_eq_iff new key,
        str_eq_iff e.0 key,
        str_eq_iff e.0 new,
      )

  pub lookup-remove :
      (k j : Str) (m : List (Str × V))
      → lookup j (remove k m) ≡ (if str_eq k j then none else lookup j m)
  unfolding lookup remove
  lookup-remove k j [] = ground arith
  lookup-remove k j ((i, w) ∷ m) =
      ground (arith, str_eq_iff k j, str_eq_iff i k, str_eq_iff i j, lookup-remove k j m)
