-- ===== src/Rest/Cache.antt =====
-- rec/rest/nodes/brokers/datastorecache.py: what the data broker remembers of the pages of names
-- that datastores listed, by job and by search text. The lock makes each method one step. A
-- datastore is its text, and time is a number of ticks, `second` of them in a second.
pub mod Expiry
use ma_sinafadavi_claude.Prelude.{
  ℕ, ◌-◌, ◌*◌, Bool, true, false, ◌&&◌, ◌||◌, not, Option, none, some, List, [], ◌∷◌, ◌++◌, Str,
  ltb, ◌==◌, str_eq, starts_with, member, keep, is_empty, lookup, insert, if◌then◌else◌, Result, ok,
  err, value_error, key_error,
}

-- a page of fastapi_pagination: its items, and the numbers beside them
pub record Page : Type 0 where
  pub items : List Str
  pub total : ℕ
  pub page : ℕ
  pub size : ℕ

pub record CachePage : Type 0 where
  pub datastore : Str
  pub page : Page
  pub time : ℕ

-- the pages by their search text
abbrev pub JobDict : Type 0
JobDict = List (Str × List CachePage)

-- The dict from an optional job to its pages: the entry of None and the others.
pub record DatastoreCache : Type 0 where
  pub shared : Option JobDict
  pub jobs : List (Str × JobDict)

unfoldable pub new_cache : DatastoreCache
new_cache = record { shared = none; jobs = [] }

-- self.cache.get(job_id, None)
unfoldable pub job_dict : Option Str → DatastoreCache → Option JobDict
job_dict none c = c.shared
job_dict (some job) c = lookup job c.jobs

-- self.cache[job_id] = d
unfoldable pub put_dict : Option Str → JobDict → DatastoreCache → DatastoreCache
put_dict none d c = record c { shared = some d }
put_dict (some job) d c = record c { jobs = insert job d c.jobs }

unfoldable pub same_items : List Str → List Str → Bool
same_items [] [] = true
same_items (x ∷ xs) (y ∷ ys) = str_eq x y && same_items xs ys
same_items _ _ = false

-- the equality of pydantic models, field by field
unfoldable pub same_content : Page → Page → Bool
unfolding same_items
same_content p q =
    same_items p.items q.items
    && ((p.total == q.total) && ((p.page == q.page) && (p.size == q.size)))

unfoldable pub same_page : CachePage → CachePage → Bool
unfolding same_content
same_page p q = str_eq p.datastore q.datastore && (same_content p.page q.page && (p.time == q.time))

-- page in pages
unfoldable pub has_page : CachePage → List CachePage → Bool
unfolding same_page
has_page p [] = false
has_page p (q ∷ qs) = same_page q p || has_page p qs

-- pages.remove(page): the first that is equal, or ValueError
unfoldable pub remove_page : CachePage → List CachePage → Result (List CachePage)
unfolding same_page
remove_page p [] = err value_error
remove_page p (q ∷ qs) =
    let rest = remove_page p qs in
    if same_page q p then ok qs else elim rest [ ok ps ↦ ok (q ∷ ps) | err e ↦ err e ]

-- needle in text
unfoldable pub occurs_in : Str → Str → Bool
occurs_in needle [] = is_empty needle
occurs_in needle (c ∷ cs) = let later = occurs_in needle cs in starts_with (c ∷ cs) needle || later

unfoldable pub is_expired : ℕ → ℕ → CachePage → Bool
is_expired second now p = ltb (60 * second) (now - p.time)

-- The loop over the pages: the first that has the name, and the expired ones up to it.
unfoldable pub scan : ℕ → ℕ → Str → List CachePage → Option CachePage × List CachePage
scan second now name [] = (none, [])
scan second now name (p ∷ ps) =
    let (found, gone) = scan second now name ps in
    let front = if is_expired second now p then p ∷ [] else [] in
    if member name p.page.items then (some p, front) else (found, front ++ gone)

-- The pages that are left: all, or those that are equal to no expired one.
unfoldable pub sweep : List CachePage → List CachePage → List CachePage
unfolding has_page
sweep gone pages = if is_empty gone then pages else keep (λ p. not (has_page p gone)) pages

-- The loop over the searches of a job, up to the first page that has the name.
unfoldable pub search_dict : ℕ → ℕ → Str → JobDict → Option (CachePage × Str) × JobDict
unfolding scan sweep
search_dict second now name [] = (none, [])
search_dict second now name ((key, pages) ∷ d) =
    let (later, d') = search_dict second now name d in
    let (found, gone) = scan second now name pages in
    if occurs_in key name
    then elim found [
      | some p ↦ (some (p, key), (key, sweep gone pages) ∷ d)
      | none ↦ (later, (key, sweep gone pages) ∷ d')
    ]
    else (later, (key, pages) ∷ d')

-- def __get_cache_place
unfoldable pub get_cache_place :
    ℕ → ℕ → Str → Option Str → DatastoreCache → Option (CachePage × Str) × DatastoreCache
unfolding search_dict job_dict put_dict
get_cache_place second now name job c = elim (job_dict job c) [
  | none ↦ (none, c)
  | some d ↦ (let (found, d') = search_dict second now name d in (found, put_dict job d' c))
]

-- def get
unfoldable pub get_datastore :
    ℕ → ℕ → Str → Option Str → DatastoreCache → Option Str × DatastoreCache
unfolding get_cache_place
get_datastore second now name job c =
    let (found, c') = get_cache_place second now name job c in
    (elim found [ some place ↦ some place.0.datastore | none ↦ none ], c')

-- a list that is there, or an empty one
unfoldable pub or_empty {ℓ} : {A : Type ℓ} → Option (List A) → List A
or_empty none = []
or_empty (some xs) = xs

-- def set
unfoldable pub set_page : ℕ → Page → Str → Str → Option Str → DatastoreCache → DatastoreCache
unfolding or_empty job_dict put_dict
set_page now page datastore key job c =
    let d = or_empty (job_dict job c) in
    let entry : CachePage = record { datastore = datastore; page = page; time = now } in
    put_dict job (insert key (or_empty (lookup key d) ++ entry ∷ []) d) c

-- self.cache[job_id][search].remove(page)
unfoldable pub drop_page :
    CachePage
    → Str
    → Option Str
    → Option JobDict
    → DatastoreCache
    → Result (Unit {0}) × DatastoreCache
unfolding remove_page put_dict or_empty
drop_page p key job none c = (err key_error, c)
drop_page p key job (some d) c = elim (remove_page p (or_empty (lookup key d))) [
  | ok pages ↦ (ok tt, put_dict job (insert key pages d) c)
  | err e ↦ (err e, c)
]

-- def invalidate
unfoldable pub invalidate :
    ℕ → ℕ → Str → Option Str → DatastoreCache → Result (Unit {0}) × DatastoreCache
unfolding get_cache_place drop_page
invalidate second now name job c =
    let (found, c') = get_cache_place second now name job c in
    elim found [
      | none ↦ (ok tt, c')
      | some place ↦ drop_page place.0 place.1 job (job_dict job c') c'
    ]
