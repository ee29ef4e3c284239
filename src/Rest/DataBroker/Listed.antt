-- ===== src/Rest/DataBroker/Listed.antt =====
-- get_data_glob over the datastores of the repository, and the choice of a datastore.
use ma_sinafadavi_claude.Rest.Datastore.Endpoints.{data_list, Datastore, listed}
use ma_sinafadavi_claude.Rest.Cache.{DatastoreCache, or_empty}
use ma_sinafadavi_claude.Rest.DataBroker.Pages.{IsPaged, all_names, IsEnough, gather_all}
use ma_sinafadavi_claude.Rest.DataBroker.{
  Stores, get_data_glob, element, gathered, datastore_for_storage, has_space, no_space, chosen,
}
use ma_sinafadavi_claude.Prelude.{
  List, ◌∙◌, ◌≡◌, ◌∷◌, ◌&&◌, ◌||◌, ◌<◌, ℕ, zero, suc, refl, ap, Bool, true, false, Option, none,
  some, [], arith, member, keep, str_eq_self, member-keep, Str, length, keys, member-append,
  starts_with, ◌⊎◌, ok, err, ◌%◌, inl, inr,
}

-- some datastore lists the name, and it begins with the text
unfoldable pub lists_any : (Str → Datastore) → Str → Str → List Str → Bool
lists_any state name x [] = false
lists_any state name x (store ∷ stores) =
    (member x (data_list (state store)) && starts_with x name) || lists_any state name x stores

member-listed :
    (x name : Str) (s : Datastore)
    → member x (listed name none s) ≡ (member x (data_list s) && starts_with x name)
unfolding listed data_list or_empty starts_with
member-listed x name s =
    member-keep (λ data_name. starts_with data_name [] && starts_with data_name name) x
      (keys s.stored_data)
    ∙ ap (λ b. member x (keys s.stored_data) && (b && starts_with x name)) (nothing_first x)
  where
    nothing_first : (x : Str) → starts_with x [] ≡ true
    nothing_first x = refl

member-all_names :
    (state : Str → Datastore) (name x : Str) (stores : List Str)
    → member x (all_names (λ store. listed name none (state store)) stores)
      ≡ lists_any state name x stores
unfolding member all_names lists_any
member-all_names state name x [] = refl
member-all_names state name x (store ∷ stores) =
    member-append x (listed name none (state store))
      (all_names (λ store. listed name none (state store)) stores)
    ∙ ground (arith, member-listed x name (state store), member-all_names state name x stores)

module _ (net : Stores) (state : Str → Datastore) (name : Str) (size : ℕ)
    (paged : IsPaged net name none (λ store. listed name none (state store)) size) where
  -- The search for names by their beginning ends, and its answer has exactly the names with this
  -- beginning that one of the datastores lists. The datastores page what the endpoint paginate_data
  -- lists, and the fuel is more than any of them lists.
  pub get_data_glob-listed :
      (fuel : ℕ) (stores : List Str) (c : DatastoreCache)
      → IsEnough fuel (λ store. listed name none (state store)) stores
      → (names : List Str) × ((c' : DatastoreCache) × ((get_data_glob net fuel stores name c
              ≡ some (names, c'))
            × ((x : Str) → member x names ≡ lists_any state name x stores)))
  unfolding get_data_glob
  get_data_glob-listed fuel stores c h =
      let (c', e) =
        gather_all net name none (λ store. listed name none (state store)) size paged fuel stores []
          c h in
      (
        all_names (λ store. listed name none (state store)) stores,
        (c', (ap gathered e, λ x. member-all_names state name x stores)),
      )

element-member :
    (n : ℕ) (xs : List Str)
    → n < length xs
    → (x : Str) × ((element n xs ≡ some x) × (member x xs ≡ true))
unfolding element member
element-member n [] h = absurd (omega (arith, h))
element-member zero (x ∷ xs) h = (x, (refl, ground (arith, str_eq_self x)))
element-member (suc n) (y ∷ xs) h =
    let (x, (e, m)) = element-member n xs (omega (arith, h)) in (x, (e, ground (arith, m)))

-- the choice from a list that has a member or none
chosen_from :
    (choice : ℕ) (xs : List Str)
    → ((x : Str) × ((chosen (element (choice % length xs) xs) ≡ ok x) × (member x xs ≡ true)))
      ⊎ ((chosen (element (choice % length xs) xs) ≡ err no_space) × (xs ≡ []))
unfolding chosen element
chosen_from choice [] = inr (refl, refl)
chosen_from choice (y ∷ ys) =
    let n = choice % length (y ∷ ys) in
    let (x, (e, m)) = element-member n (y ∷ ys) (omega arith) in inl (x, (ap chosen e, m))

-- The choice of a datastore for data either gives one of the known datastores, with more free space
-- than the data need, or it fails since none of them has; whatever random draws.
pub datastore_for_storage-has_space :
    (free : Str → Option ℕ) (choice required : ℕ) (stores : List Str)
    → ((store : Str) × (((datastore_for_storage free choice required stores).0 ≡ ok store)
          × ((member store stores ≡ true) × (has_space free required store ≡ true))))
      ⊎ (((datastore_for_storage free choice required stores).0 ≡ err no_space)
          × (keep (has_space free required) stores ≡ []))
unfolding datastore_for_storage
datastore_for_storage-has_space free choice required stores =
    elim (chosen_from choice (keep (has_space free required) stores)) [
      | inl (x, (e, m)) ↦ inl (
        x,
        (
          e,
          (
            ground (arith, m, member-keep (has_space free required) x stores),
            ground (arith, m, member-keep (has_space free required) x stores),
          ),
        ),
      )
      | inr r ↦ inr r
    ]
