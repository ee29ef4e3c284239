-- ===== src/Rest/DataBroker/Located.antt =====
-- job_data_location: the datastore that holds a name.
use ma_sinafadavi_claude.Rest.DataBroker.Pages.{
  IsPaged, next_part, IsEnough, all_left, take-drop, last_page, shorter,
}
use ma_sinafadavi_claude.Rest.DataBroker.{
  iter_pages, note_page, job_data_location, holder_of, iter_data, next_page, Stores, unless_found,
  or_search,
}
use ma_sinafadavi_claude.Rest.Cache.{DatastoreCache, get_datastore}
use ma_sinafadavi_claude.Prelude.{
  List, ◌∙◌, ◌≡◌, ◌++◌, ◌∷◌, if◌then◌else◌, refl, Bool, true, false, Option, none, some, [], arith,
  Str, is_empty, member, ◌||◌, ◌+◌, ◌*◌, ◌<◌, ℕ, zero, suc, sym, ap, drop, member-append, length,
  take,
}

-- one round: the page has the name, or it is empty, or the next rounds look further
find_round :
    (name store : Str) (items later_names rest : List Str) (c : DatastoreCache)
    (more : Option (Option Str × (Unit {0} × DatastoreCache)))
    → items ++ later_names ≡ rest
    → is_empty items ≡ is_empty rest
    → (is_empty rest ≡ false
        → (c' : DatastoreCache) × (more
            ≡ some ((if member name later_names then some store else none), (tt, c'))))
    → (c' : DatastoreCache) × ((elim (if member name items then some store else none) [
      | some r ↦ some (some r, (tt, c))
      | none ↦ if is_empty items then some (none, (tt, c)) else more
    ])
        ≡ some ((if member name rest then some store else none), (tt, c')))
find_round name store [] later_names [] c more e h k = (c, unfold member in refl)
find_round name store [] later_names (y ∷ rest) c more e h k = absurd (ground arith)
find_round name store (x ∷ items) later_names [] c more e h k = absurd (ground arith)
find_round name store (x ∷ items) later_names (y ∷ rest) c more e h k =
    by_member (ap (member name) (sym e) ∙ member-append name (x ∷ items) later_names)
      (member name (x ∷ items)) refl
  where
    by_member :
        member name (y ∷ rest) ≡ (member name (x ∷ items) || member name later_names)
        → (b : Bool) → member name (x ∷ items) ≡ b
        → (c' : DatastoreCache) × ((elim (if b then some store else none) [
          | some r ↦ some (some r, (tt, c))
          | none ↦ more
        ])
            ≡ some ((if member name (y ∷ rest) then some store else none), (tt, c')))
    by_member w true m = (c, ground (arith, w, m))
    by_member w false m = let (c', f) = k refl in (c', f ∙ ground (arith, w, m))

-- the first datastore that lists the name
unfoldable pub first_holder : (Str → List Str) → Str → List Str → Option Str
first_holder names name [] = none
first_holder names name (store ∷ stores) =
    let later = first_holder names name stores in
    if member name (names store) then some store else later

module _ (net : Stores) (name : Str) (job : Option Str) (names : Str → List Str) (size : ℕ)
    (paged : IsPaged net name job names size) where
  find :
      (fuel n : ℕ) (store : Str) (c : DatastoreCache)
      → length (drop (n * size) (names store)) < fuel
      → (c' : DatastoreCache) × (iter_pages net name job (holder_of name) fuel n store (tt, c)
          ≡ some (
            (if member name (drop (n * size) (names store)) then some store else none),
            (tt, c'),
          ))
  unfolding iter_pages holder_of
  find zero n store c h = absurd (omega (arith, h))
  find (suc fuel) n store c h =
      let rest = drop (n * size) (names store) in
      let items = next_page net name job store (n + 1) in
      let noted = note_page net name job store (n + 1) items c in
      let next = next_part n size (names store) in
      find_round name store items (drop ((n + 1) * size) (names store)) rest noted
        (iter_pages net name job (holder_of name) fuel (n + 1) store (tt, noted))
        (ap (λ xs. xs ++ drop ((n + 1) * size) (names store)) (paged.parts store n)
          ∙ (ap (λ xs. take size rest ++ xs) (sym next) ∙ take-drop size rest))
        (ap is_empty (paged.parts store n) ∙ last_page size rest paged.sized)
        (λ e.
          find fuel (n + 1) store noted
            (omega (arith, h, ap length next, shorter size rest paged.sized e)))

  find_store :
      (fuel : ℕ) (store : Str) (c : DatastoreCache)
      → length (names store) < fuel
      → (c' : DatastoreCache) × (iter_pages net name job (holder_of name) fuel 0 store (tt, c)
          ≡ some ((if member name (names store) then some store else none), (tt, c')))
  find_store fuel store c h =
      let l = all_left size (names store) in
      let (c', e) = find fuel 0 store c (rw l h) in
      (c', e ∙ ap (λ xs. some ((if member name xs then some store else none), (tt, c'))) l)

  find_all :
      (fuel : ℕ) (stores : List Str) (c : DatastoreCache)
      → IsEnough fuel names stores
      → (c' : DatastoreCache) × (iter_data net name job (holder_of name) fuel stores (tt, c)
          ≡ some (first_holder names name stores, (tt, c')))
  unfolding iter_data first_holder
  find_all fuel [] c h = (c, refl)
  find_all fuel (store ∷ stores) c h =
      let (c', e) = find_store fuel store c h.0 in
      by_member (member name (names store)) c' (find_all fuel stores c' h.1) e
    where
      by_member :
          (b : Bool) (c' : DatastoreCache)
          → (c'' : DatastoreCache) × (iter_data net name job (holder_of name) fuel stores (tt, c')
              ≡ some (first_holder names name stores, (tt, c'')))
          → iter_pages net name job (holder_of name) fuel 0 store (tt, c)
            ≡ some ((if b then some store else none), (tt, c'))
          → (x : DatastoreCache) × (unless_found
                (iter_pages net name job (holder_of name) fuel 0 store (tt, c))
                (iter_data net name job (holder_of name) fuel stores)
              ≡ some ((if b then some store else first_holder names name stores), (tt, x)))
      by_member true c' rest e =
          (c', ap (λ r. unless_found r (iter_data net name job (holder_of name) fuel stores)) e)
      by_member false c' (c'', k) e = (
        c'',
        ap (λ r. unless_found r (iter_data net name job (holder_of name) fuel stores)) e ∙ k,
      )

  -- If the cache knows no place for a name, and the datastores page what they list, then the search
  -- ends and gives the first datastore that lists the name, or none if no one does. The fuel is more
  -- than any of them lists.
  pub job_data_location-first :
      (second now fuel : ℕ) (stores : List Str) (c : DatastoreCache)
      → IsEnough fuel names stores
      → (get_datastore second now name job c).0 ≡ none
      → (c' : DatastoreCache) × (job_data_location net second now fuel stores name job c
          ≡ some (first_holder names name stores, c'))
  unfolding job_data_location
  job_data_location-first second now fuel stores c h e =
      let (c', k) = find_all fuel stores (get_datastore second now name job c).1 h in
      let c1 = (get_datastore second now name job c).1 in
      (
        c',
        ap (λ o. or_search o c1 (iter_data net name job (holder_of name) fuel stores (tt, c1))) e
            ∙ ap (or_search none c1) k,
      )
