-- ===== src/Rest/DataBroker/Pages.antt =====
-- iter_data over datastores that divide what they list into pages.
use ma_sinafadavi_claude.Rest.Cache.{DatastoreCache}
use ma_sinafadavi_claude.Rest.DataBroker.{
  Stores, next_page, iter_pages, extend, iter_data, note_page, unless_found,
}
use ma_sinafadavi_claude.Prelude.{
  List, ◌∙◌, ◌≡◌, ◌++◌, ◌∷◌, ◌+◌, ◌*◌, ◌≤◌, ◌<◌, ℕ, zero, suc, refl, sym, ap, false, Option, [],
  arith, drop, length, take, Str, is_empty, none, some, if◌then◌else◌, append_assoc, append-nil,
}

-- What a datastore lists for a request is `names`, and its pages, counted from 1, are the parts of it
-- of a size that is not 0: the documented pagination.
pub record IsPaged (net : Stores) (name : Str) (job : Option Str) (names : Str → List Str)
    (size : ℕ) : Type 0 where
  pub sized : 1 ≤ size
  pub parts :
      (store : Str) (n : ℕ)
      → next_page net name job store (n + 1) ≡ take size (drop (n * size) (names store))

pub take-drop : {A : Type 0} (n : ℕ) (xs : List A) → take n xs ++ drop n xs ≡ xs
take-drop zero xs = refl
take-drop (suc n) [] = refl
take-drop (suc n) (x ∷ xs) = ap (λ ys. x ∷ ys) (take-drop n xs)

drop_nil : {A : Type 0} (m : ℕ) → drop {A = A} m [] ≡ []
drop_nil zero = refl
drop_nil (suc m) = refl

drop-drop : {A : Type 0} (m n k : ℕ) (xs : List A) → n + m ≡ k → drop m (drop n xs) ≡ drop k xs
drop-drop m zero k xs h = let e : m ≡ k = omega (arith, h) in ap (λ i. drop i xs) e
drop-drop m (suc n) k [] h = drop_nil m ∙ sym (drop_nil k)
drop-drop m (suc n) zero (x ∷ xs) h = absurd (omega (arith, h))
drop-drop m (suc n) (suc k) (x ∷ xs) h = drop-drop m n k xs (omega (arith, h))

-- the part after the page
pub next_part :
    {A : Type 0} (n size : ℕ) (xs : List A)
    → drop size (drop (n * size) xs) ≡ drop ((n + 1) * size) xs
next_part n size xs = drop-drop size (n * size) ((n + 1) * size) xs (omega arith)

-- a page is empty only behind the last name
pub last_page :
    {A : Type 0} (size : ℕ) (xs : List A) → 1 ≤ size → is_empty (take size xs) ≡ is_empty xs
last_page zero xs h = absurd (omega (arith, h))
last_page (suc n) [] h = refl
last_page (suc n) (x ∷ xs) h = refl

pub shorter :
    {A : Type 0} (size : ℕ) (xs : List A)
    → 1 ≤ size
    → is_empty xs ≡ false
    → length (drop size xs) < length xs
shorter zero xs h e = absurd (omega (arith, h))
shorter (suc n) [] h e = absurd (ground arith)
shorter (suc n) (x ∷ xs) h e = ground (arith, length-drop n xs)
  where
    length-drop : {A : Type 0} (n : ℕ) (xs : List A) → length (drop n xs) ≤ length xs
    length-drop zero xs = omega arith
    length-drop (suc n) [] = omega arith
    length-drop (suc n) (x ∷ xs) = omega (arith, length-drop n xs)

-- one round: the page is empty and nothing was left, or what the next rounds gather is added
gather_round :
    (items later rest result : List Str) (c : DatastoreCache)
    (more : Option (Option (Unit {0}) × (List Str × DatastoreCache)))
    → items ++ later ≡ rest
    → is_empty items ≡ is_empty rest
    → (is_empty rest ≡ false
        → (c' : DatastoreCache) × (more ≡ some (none, ((result ++ items) ++ later, c'))))
    → (c' : DatastoreCache) × ((if is_empty items then some (none, (result ++ items, c)) else more)
        ≡ some (none, (result ++ rest, c')))
gather_round [] later [] result c more e h k = (c, refl)
gather_round [] later (y ∷ rest) result c more e h k = absurd (ground arith)
gather_round (x ∷ items) later [] result c more e h k = absurd (ground arith)
gather_round (x ∷ items) later (y ∷ rest) result c more e h k =
    let (c', m) = k refl in
    (
      c',
      m
          ∙ ap (λ xs. some (none, (xs, c')))
              (append_assoc result (x ∷ items) later ∙ ap (λ xs. result ++ xs) e),
    )

module _ (net : Stores) (name : Str) (job : Option Str) (names : Str → List Str) (size : ℕ)
    (paged : IsPaged net name job names size) where
  -- The loop over the pages ends after the last name, and has then gathered all names from the page
  -- where it began.
  gather :
      (fuel n : ℕ) (store : Str) (result : List Str) (c : DatastoreCache)
      → length (drop (n * size) (names store)) < fuel
      → (c' : DatastoreCache) × (iter_pages net name job extend fuel n store (result, c)
          ≡ some (none, (result ++ drop (n * size) (names store), c')))
  unfolding iter_pages extend
  gather zero n store result c h = absurd (omega (arith, h))
  gather (suc fuel) n store result c h =
      let rest = drop (n * size) (names store) in
      let items = next_page net name job store (n + 1) in
      let noted = note_page net name job store (n + 1) items c in
      let next = next_part n size (names store) in
      gather_round items (drop ((n + 1) * size) (names store)) rest result noted
        (iter_pages net name job extend fuel (n + 1) store (result ++ items, noted))
        (ap (λ xs. xs ++ drop ((n + 1) * size) (names store)) (paged.parts store n)
          ∙ (ap (λ xs. take size rest ++ xs) (sym next) ∙ take-drop size rest))
        (ap is_empty (paged.parts store n) ∙ last_page size rest paged.sized)
        (λ e.
          gather fuel (n + 1) store (result ++ items) noted
            (omega (arith, h, ap length next, shorter size rest paged.sized e)))

-- the names that all datastores list
unfoldable pub all_names : (Str → List Str) → List Str → List Str
all_names names [] = []
all_names names (store ∷ stores) = names store ++ all_names names stores

-- the fuel is enough for each of them
abbrev pub IsEnough : ℕ → (Str → List Str) → List Str → Type 0
IsEnough fuel names [] = Unit
IsEnough fuel names (store ∷ stores) = (length (names store) < fuel) × IsEnough fuel names stores

pub all_left : {A : Type 0} (size : ℕ) (xs : List A) → drop (0 * size) xs ≡ xs
all_left size xs = let e : 0 * size ≡ 0 = omega arith in ap (λ k. drop k xs) e

module _ (net : Stores) (name : Str) (job : Option Str) (names : Str → List Str) (size : ℕ)
    (paged : IsPaged net name job names size) where
  gather_store :
      (fuel : ℕ) (store : Str) (result : List Str) (c : DatastoreCache)
      → length (names store) < fuel
      → (c' : DatastoreCache) × (iter_pages net name job extend fuel 0 store (result, c)
          ≡ some (none, (result ++ names store, c')))
  gather_store fuel store result c h =
      let l = all_left size (names store) in
      let (c', e) = gather net name job names size paged fuel 0 store result c (rw l h) in
      (c', e ∙ ap (λ xs. some (none, (result ++ xs, c'))) l)

  pub gather_all :
      (fuel : ℕ) (stores result : List Str) (c : DatastoreCache)
      → IsEnough fuel names stores
      → (c' : DatastoreCache) × (iter_data net name job extend fuel stores (result, c)
          ≡ some (none, (result ++ all_names names stores, c')))
  unfolding iter_data all_names
  gather_all fuel [] result c h = (c, ap (λ xs. some (none, (xs, c))) (sym (append-nil result)))
  gather_all fuel (store ∷ stores) result c h =
      let (c', e) = gather_store fuel store result c h.0 in
      let (c'', k) = gather_all fuel stores (result ++ names store) c' h.1 in
      (
        c'',
        ap (λ r. unless_found r (iter_data net name job extend fuel stores)) e
            ∙ (k
                ∙ ap (λ xs. some (none, (xs, c'')))
                    (append_assoc result (names store) (all_names names stores))),
      )
