-- ===== src/Prelude/Results.antt =====
-- Python's exceptions as values, and methods that change an object and may raise: what was written
-- before the raise stays written, so the state comes back beside the error too.
use mathlib.Core.List.{List, [], ◌∷◌}
use mathlib.Core.Path.{◌≡◌, refl}
use native.Mathlib.Omega.{arith}
use ma_sinafadavi_claude.Prelude.Lists.{Str}

-- The exceptions that the modelled code raises or lets through.
pub data Error : Type 0 where
  eid_error value_error type_error attribute_error key_error index_error : Error
  overflow_error assertion_error connection_error invalid_message os_error : Error
  name_taken no_such_name : Str → Error
  http_error : Str → Error
  wasm_rest : Str → Error

pub data Result {ℓ} (A : Type ℓ) : Type ℓ where
  ok : A → Result A
  err : Error → Result A

-- the next statement of a block, which an exception skips
abbrev pub ◌>>=◌ {ℓ κ} : {A : Type ℓ} {B : Type κ} (r : Result A) (rest : A → Result B) → Result B
err e >>= rest = err e
ok a >>= rest = rest a

infixl 5 ◌>>=◌
abbrev pub Exec {ℓ κ} : Type ℓ → Type κ → Type (ℓ ⊔ κ)
Exec S A = S → Result A × S

-- `await e` and the rest of the block, which an exception skips.
abbrev pub after {ℓ κ μ} :
    {S : Type ℓ} {A : Type κ} {B : Type μ} → Result A × S → (A → Exec S B) → Result B × S
after r f = elim r.0 [ ok a ↦ f a r.1 | err e ↦ (err e, r.1) ]

-- for x in xs: await body(x)
unfoldable pub for_each {ℓ κ} :
    {S : Type ℓ} {A : Type κ} → (A → Exec S (Unit {0})) → List A → Exec S (Unit {0})
for_each body [] s = (ok tt, s)
for_each body (x ∷ xs) s = after (body x s) (λ _. for_each body xs)

-- try: m / except Exception: log
abbrev pub attempt {ℓ κ} : {S : Type ℓ} {A : Type κ} → Result A × S → S
attempt r = r.1

module _ {ℓ κ μ} {S : Type ℓ} {A : Type κ} (P : S → Type μ) (body : A → Exec S (Unit {0})) where
  -- An invariant of the body is an invariant of the loop, also when the body raises.
  pub for_each_inv :
      ((x : A) (s : S) → P s → P (body x s).1)
      → (xs : List A) (s : S) → P s
      → P (for_each body xs s).1
  unfolding for_each
  for_each_inv step [] s h = h
  for_each_inv step (x ∷ xs) s h = go (body x s).0 (body x s).1 (step x s h) (for_each_inv step xs)
    where
      go :
          (r : Result (Unit {0})) (t : S)
          → P t
          → ((u : S) → P u → P (for_each body xs u).1)
          → P (after (r, t) (λ _. for_each body xs)).1
      go (ok _) t k rest = rest t k
      go (err e) t k rest = k

-- Inversion of a step that is followed by others and returned.
pub after-eq-ok {ℓ κ μ} :
    {S : Type ℓ} {A : Type κ} {B : Type μ} (r : Result A × S) (f : A → Exec S B) {b : B} {t : S}
    → after r f ≡ (ok b, t)
    → (a : A) × (r ≡ (ok a, r.1)) × (f a r.1 ≡ (ok b, t))
after-eq-ok (ok a, s) f h = (a, refl, h)
after-eq-ok (err e, s) f h = absurd (ground arith)

-- What a step and what follows it keep, both together keep.
pub after_inv {ℓ κ μ ν} :
    {S : Type ℓ} {A : Type κ} {B : Type μ} (P : S → Type ν) (r : Result A × S) (f : A → Exec S B)
    → P r.1
    → ((a : A) (s : S) → r.0 ≡ ok a → P s → P (f a s).1)
    → P (after r f).1
after_inv P (ok a, s) f h k = k a s refl h
after_inv P (err e, s) f h k = h
