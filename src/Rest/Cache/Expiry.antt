-- ===== src/Rest/Cache/Expiry.antt =====
-- What becomes of a page that is older than a minute.
use ma_sinafadavi_claude.Prelude.{
  ℕ, true, not, Option, none, some, List, [], ◌∷◌, Str, str_eq_iff, str_eq_self, keep, lookup,
  lookup-insert, err, value_error, ◌≡◌, refl, arith, Bool-cases, inl, inr, is_some,
}
use ma_sinafadavi_claude.Rest.Cache.{
  CachePage, JobDict, DatastoreCache, job_dict, put_dict, same_items, same_page, same_content, Page,
  has_page, remove_page, is_expired, scan, sweep, search_dict, get_cache_place, get_datastore,
  or_empty, drop_page, invalidate,
}

same_items_self : (xs : List Str) → same_items xs xs ≡ true
unfolding same_items
same_items_self [] = refl
same_items_self (x ∷ xs) = ground (arith, str_eq_self x, same_items_self xs)

same_items-eq : (xs ys : List Str) → same_items xs ys ≡ true → xs ≡ ys
unfolding same_items
same_items-eq [] [] h = refl
same_items-eq [] (y ∷ ys) h = absurd (ground arith)
same_items-eq (x ∷ xs) [] h = absurd (ground arith)
same_items-eq (x ∷ xs) (y ∷ ys) h = ground (arith, str_eq_iff x y, same_items-eq xs ys)

same_content_self : (p : Page) → same_content p p ≡ true
unfolding same_content
same_content_self p = ground (arith, same_items_self p.items)

same_content-eq : (p q : Page) → same_content p q ≡ true → p ≡ q
unfolding same_content
same_content-eq p q h =
    let x : p.items ≡ q.items = same_items-eq p.items q.items (ground arith) in
    let t : p.total ≡ q.total = ground arith in
    let n : p.page ≡ q.page = ground arith in
    let s : p.size ≡ q.size = ground arith in
    λ i. record { items = x i; total = t i; page = n i; size = s i }

same_page_self : (p : CachePage) → same_page p p ≡ true
unfolding same_page
same_page_self p = ground (arith, str_eq_self p.datastore, same_content_self p.page)

same_page-eq : (p q : CachePage) → same_page p q ≡ true → p ≡ q
unfolding same_page
same_page-eq p q h =
    let d : p.datastore ≡ q.datastore = ground (arith, str_eq_iff p.datastore q.datastore) in
    let x : p.page ≡ q.page = same_content-eq p.page q.page (ground arith) in
    let t : p.time ≡ q.time = ground arith in
    λ i. record { datastore = d i; page = x i; time = t i }

has_page-behind :
    (p q : CachePage) (ps : List CachePage) → has_page p ps ≡ true → has_page p (q ∷ ps) ≡ true
unfolding has_page
has_page-behind p q ps h = ground arith

-- A page that is expired is among the expired ones when it is found.
has_page-scan :
    (second now : ℕ) (name : Str) (pages : List CachePage) (p : CachePage)
    → (scan second now name pages).0 ≡ some p
    → is_expired second now p ≡ true
    → has_page p (scan second now name pages).1 ≡ true
unfolding scan has_page
has_page-scan second now name [] p h e = absurd (ground arith)
has_page-scan second now name (q ∷ pages) p h e = ground (
  arith,
  has_page-scan second now name pages p,
  same_page_self p,
  has_page-behind p q (scan second now name pages).1,
)

-- A page that is equal to an expired one is not left by the sweep, and cannot be removed after it.
remove_page-keep :
    (p : CachePage) (gone pages : List CachePage)
    → has_page p gone ≡ true
    → remove_page p (keep (λ q. not (has_page q gone)) pages) ≡ err value_error
unfolding remove_page keep
remove_page-keep p gone [] h = refl
remove_page-keep p gone (q ∷ pages) h = elim (Bool-cases (same_page q p)) [
  | inl same ↦ rw (same_page-eq q p same, h) (remove_page-keep p gone pages h)
  | inr unlike ↦ ground (arith, remove_page-keep p gone pages h)
]

remove_page-sweep :
    (p : CachePage) (gone pages : List CachePage)
    → has_page p gone ≡ true
    → remove_page p (sweep gone pages) ≡ err value_error
unfolding sweep has_page
remove_page-sweep p [] pages h = absurd (ground arith)
remove_page-sweep p (g ∷ gone) pages h = remove_page-keep p (g ∷ gone) pages h

-- no search text twice
abbrev pub AreSearches : JobDict → Type 0
AreSearches [] = Unit
AreSearches ((key, pages) ∷ d) = (lookup key d ≡ none) × AreSearches d

found_is_entered :
    (second now : ℕ) (name : Str) (d : JobDict) (p : CachePage) (key : Str)
    → (search_dict second now name d).0 ≡ some (p, key)
    → is_some (lookup key d) ≡ true
unfolding search_dict is_some lookup
found_is_entered second now name [] p key h = absurd (ground arith)
found_is_entered second now name ((k, pages) ∷ d) p key h =
    ground (arith, found_is_entered second now name d p key, str_eq_self key)

remove_page-search_dict :
    (second now : ℕ) (name : Str) (d : JobDict) (p : CachePage) (key : Str)
    → AreSearches d
    → (search_dict second now name d).0 ≡ some (p, key)
    → is_expired second now p ≡ true
    → remove_page p (or_empty (lookup key (search_dict second now name d).1)) ≡ err value_error
unfolding search_dict or_empty lookup is_some
remove_page-search_dict second now name [] p key u h e = absurd (ground arith)
remove_page-search_dict second now name ((k, pages) ∷ d) p key u h e = ground (
  arith,
  str_eq_iff k key,
  u.0,
  found_is_entered second now name d p key,
  remove_page-search_dict second now name d p key u.1,
  has_page-scan second now name pages p,
  remove_page-sweep p (scan second now name pages).1 pages,
)

job_dict-put_dict :
    (job : Option Str) (d : JobDict) (c : DatastoreCache) → job_dict job (put_dict job d c) ≡ some d
unfolding job_dict put_dict
job_dict-put_dict none d c = refl
job_dict-put_dict (some job) d c = ground (arith, lookup-insert job job d c.jobs, str_eq_self job)

place :
    (second now : ℕ) (name : Str) (job : Option Str) (d : JobDict) (c : DatastoreCache)
    (p : CachePage) (key : Str)
    → job_dict job c ≡ some d
    → (search_dict second now name d).0 ≡ some (p, key)
    → get_cache_place second now name job c
      ≡ (some (p, key), put_dict job (search_dict second now name d).1 c)
unfolding get_cache_place
place second now name job d c p key j h =
    rw (get_cache_place, j) (λ i. (h i, put_dict job (search_dict second now name d).1 c))

-- Where no search text is entered twice for the job, a page older than a minute still answers when
-- it is found, but it cannot be invalidated: the search has dropped it already, and `invalidate`
-- raises ValueError and leaves what the search left.
pub invalidate_expired :
    (second now : ℕ) (name : Str) (job : Option Str) (d : JobDict) (c : DatastoreCache)
    (p : CachePage) (key : Str)
    → job_dict job c ≡ some d
    → AreSearches d
    → (search_dict second now name d).0 ≡ some (p, key)
    → is_expired second now p ≡ true
    → ((get_datastore second now name job c).0 ≡ some p.datastore)
      × (invalidate second now name job c
          ≡ (err value_error, put_dict job (search_dict second now name d).1 c))
unfolding get_datastore invalidate
invalidate_expired second now name job d c p key j u h e =
    let found = place second now name job d c p key j h in
    let left : (get_cache_place second now name job c).1
        ≡ put_dict job (search_dict second now name d).1 c =
      λ i. (found i).1 in
    (
      rw (get_datastore, found),
      rw (invalidate, found, left, job_dict-put_dict job (search_dict second now name d).1 c)
          (rw (drop_page, remove_page-search_dict second now name d p key u h e)),
    )
