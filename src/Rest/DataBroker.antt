-- ===== src/Rest/DataBroker.antt =====
-- rec/rest/nodes/brokers/databroker.py: where data are, over the datastores that the broker knows and
-- its cache. A datastore is its text; the answers of its REST interface are parameters, which do not
-- change while a request is served: `page` is the items of paginate_data_list by name, job and page
-- number, `numbers` the total, number and size that a page tells of itself, `arrival` the time at
-- which the cache notes a page, `fetch` what get_data_iterator gives, and `free` the free space,
-- where none is -1. The loop over the pages runs on fuel.
pub mod Pages
pub mod Located
pub mod Listed
use ma_sinafadavi_claude.Rest.Cache.{get_datastore, DatastoreCache, Page, set_page, invalidate}
use ma_sinafadavi_claude.Prelude.{
  List, ◌++◌, ◌∷◌, ◌+◌, if◌then◌else◌, ℕ, zero, suc, not, Option, none, some, [], Bytes, is_empty,
  ltb, codes, Str, Result, member, ok, err, http_error, ◌%◌, length, Bool, true, false, keep, Error,
  remove, lookup, insert,
}

pub record Stores : Type 0 where
  pub page : Str → Str → Option Str → ℕ → List Str
  pub arrival : Str → ℕ → ℕ
  pub numbers : Str → ℕ → ℕ × ℕ × ℕ

-- the page that iter_data asks for
unfoldable pub next_page : Stores → Str → Option Str → Str → ℕ → List Str
next_page net name none store n = net.page store name none n
next_page net name (some job) store n = net.page store [] (some job) n

unfoldable pub page_of : Stores → Str → ℕ → List Str → Page
page_of net store n items =
    let (total, number, size) = net.numbers store n in
    record { items = items; total = total; page = number; size = size }

-- job_datastore_cache.set(page, ...), if the page has items
unfoldable pub note_page :
    Stores → Str → Option Str → Str → ℕ → List Str → DatastoreCache → DatastoreCache
unfolding page_of
note_page net name job store n [] c = c
note_page net name none store n (x ∷ items) c =
    set_page (net.arrival store n) (page_of net store n (x ∷ items)) store name none c
note_page net name (some job) store n (x ∷ items) c =
    set_page (net.arrival store n) (page_of net store n (x ∷ items)) store [] (some job) c

-- what one datastore gave, or else what the next ones give
unfoldable pub unless_found :
    {R S : Type 0} → Option (Option R × S) → (S → Option (Option R × S)) → Option (Option R × S)
unless_found none rest = none
unless_found (some (some r, s)) rest = some (some r, s)
unless_found (some (none, s)) rest = rest s

module _ {R A : Type 0} (net : Stores) (name : Str) (job : Option Str)
    (for_page : List Str → Str → A → Option R × A) where
  -- while True, for one datastore: what for_page gave, or nothing after an empty page
  unfoldable pub iter_pages :
      ℕ → ℕ → Str → A × DatastoreCache → Option (Option R × (A × DatastoreCache))
  unfolding next_page note_page
  iter_pages zero n store s = none
  iter_pages (suc fuel) n store (a, c) =
      let items = next_page net name job store (n + 1) in
      let c' = note_page net name job store (n + 1) items c in
      let (res, a') = for_page items store a in
      let rest = iter_pages fuel (n + 1) store (a', c') in
      elim res [
        | some r ↦ some (some r, (a', c'))
        | none ↦ if is_empty items then some (none, (a', c')) else rest
      ]

  -- def iter_data
  unfoldable pub iter_data :
      ℕ → List Str → A × DatastoreCache → Option (Option R × (A × DatastoreCache))
  unfolding iter_pages unless_found
  iter_data fuel [] s = some (none, s)
  iter_data fuel (store ∷ stores) s =
      unless_found (iter_pages fuel 0 store s) (iter_data fuel stores)

-- the for_page of get_data_glob
unfoldable pub extend : List Str → Str → List Str → Option (Unit {0}) × List Str
extend items store result = (none, result ++ items)

-- what is left of iter_data when its result is not used
unfoldable pub gathered : {S : Type 0} → Option (Option (Unit {0}) × S) → Option S
gathered none = none
gathered (some (res, s)) = some s

-- the endpoint get_data_glob
unfoldable pub get_data_glob :
    Stores → ℕ → List Str → Str → DatastoreCache → Option (List Str × DatastoreCache)
unfolding iter_data extend gathered
get_data_glob net fuel stores name c = gathered (iter_data net name none extend fuel stores ([], c))

-- the for_page of job_data_location
unfoldable pub holder_of : Str → List Str → Str → Unit {0} → Option Str × Unit {0}
holder_of name items store _ = (if member name items then some store else none, tt)

-- the datastore from the cache, or what the search gives
unfoldable pub or_search :
    Option Str
    → DatastoreCache
    → Option (Option Str × (Unit {0} × DatastoreCache))
    → Option (Option Str × DatastoreCache)
or_search (some store) c search = some (some store, c)
or_search none c none = none
or_search none c (some (res, s)) = some (res, s.1)

-- def job_data_location, at the time `now`
unfoldable pub job_data_location :
    Stores
    → ℕ
    → ℕ
    → ℕ
    → List Str
    → Str
    → Option Str
    → DatastoreCache
    → Option (Option Str × DatastoreCache)
unfolding iter_data holder_of get_datastore or_search
job_data_location net second now fuel stores name job c =
    let (found, c') = get_datastore second now name job c in
    or_search found c' (iter_data net name job (holder_of name) fuel stores (tt, c'))

-- The rounds of the endpoint get_data. After the last one the function ends without an answer, which
-- is None. The clock is read anew in every round.
unfoldable pub get_data :
    Stores
    → (Str → Str → Option Bytes)
    → ℕ
    → (ℕ → ℕ)
    → ℕ
    → List Str
    → Str
    → Option Str
    → ℕ
    → DatastoreCache
    → Option (Result (Option Bytes) × DatastoreCache)
unfolding job_data_location invalidate
get_data net fetch second clock fuel stores name job zero c = some (ok none, c)
get_data net fetch second clock fuel stores name job (suc rounds) c =
    let now = clock rounds in
    elim (job_data_location net second now fuel stores name job c) [
      | none ↦ none
      | some (none, c') ↦ some (err (http_error (codes "Data location not known")), c')
      | some (some store, c') ↦ (elim (fetch store name) [
        | some bytes ↦ some (ok (some bytes), c')
        | none ↦
            (let (r, c'') = invalidate second now name job c' in
              let rest = get_data net fetch second clock fuel stores name job rounds c'' in
              elim r [ err e ↦ some (err e, c'') | ok _ ↦ rest ])
      ])
    ]

-- free_space > required_storage, where -1 never is
unfoldable pub has_space : (Str → Option ℕ) → ℕ → Str → Bool
has_space free required store = elim (free store) [ none ↦ false | some n ↦ ltb required n ]

-- free_space == -1
unfoldable pub is_gone : (Str → Option ℕ) → Str → Bool
is_gone free store = elim (free store) [ none ↦ true | some n ↦ false ]

unfoldable pub element : ℕ → List Str → Option Str
element n [] = none
element zero (x ∷ xs) = some x
element (suc n) (x ∷ xs) = element n xs

unfoldable pub no_space : Error
no_space = http_error (codes "No datastore able to hold file")

unfoldable pub chosen : Option Str → Result Str
unfolding no_space
chosen none = err no_space
chosen (some store) = ok store

-- def datastore_for_storage, with the datastores that are left; `choice` is what random draws
unfoldable pub datastore_for_storage : (Str → Option ℕ) → ℕ → ℕ → List Str → Result Str × List Str
unfolding has_space is_gone element chosen
datastore_for_storage free choice required stores =
    let capable = keep (has_space free required) stores in
    (
      chosen (element (choice % length capable) capable),
      keep (λ store. not (is_gone free store)) stores,
    )

-- def add_pending_job, on pending_results
unfoldable pub add_pending_job : {A : Type 0} → Str → A → List (Str × A) → List (Str × A)
add_pending_job job_id address pending = insert job_id address pending

-- the rest of the endpoint send_result, with the address that is known; `sent` is the client's answer
unfoldable pub send_known :
    {A : Type 0} → Bool → Str → Option A → List (Str × A) → Result (Unit {0}) × List (Str × A)
send_known sent job_id none pending = (ok tt, pending)
send_known true job_id (some address) pending = (ok tt, remove job_id pending)
send_known false job_id (some address) pending =
    (err (http_error (codes "Result destination not known")), pending)

-- the endpoint send_result
unfoldable pub send_result :
    {A : Type 0} → Bool → Str → List (Str × A) → Result (Unit {0}) × List (Str × A)
unfolding send_known
send_result sent job_id pending = send_known sent job_id (lookup job_id pending) pending
