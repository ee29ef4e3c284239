-- ===== src/Tests/Caches.antt =====
-- Runs of rec/rest/nodes/brokers/datastorecache.py.
use ma_sinafadavi_claude.Prelude.{
  true, none, some, [], ◌∷◌, codes, lookup, err, value_error, ◌≡◌, refl, insert, starts_with,
  member, str_eq,
}
use ma_sinafadavi_claude.Rest.Cache.{
  CachePage, Page, JobDict, DatastoreCache, job_dict, put_dict, is_expired, search_dict,
  get_datastore, invalidate, new_cache, set_page, occurs_in,
}
use ma_sinafadavi_claude.Rest.Cache.Expiry.{AreSearches, invalidate_expired}

abbrev first_page : Page
first_page = record { items = codes "data/a" ∷ []; total = 1; page = 1; size = 50 }

abbrev old_page : CachePage
old_page = record { datastore = codes "store-1"; page = first_page; time = 100 }

abbrev searches : JobDict
searches = (codes "data", old_page ∷ []) ∷ []

abbrev cache : DatastoreCache
cache = record { shared = some searches; jobs = [] }

page_set : set_page 100 first_page (codes "store-1") (codes "data") none new_cache ≡ cache
unfolding set_page new_cache insert lookup
page_set = refl

page_found : (search_dict 1 200 (codes "data/a") searches).0 ≡ some (old_page, codes "data")
unfolding search_dict occurs_in starts_with member str_eq
page_found = refl

page_is_old : is_expired 1 200 old_page ≡ true
unfolding is_expired
page_is_old = refl

searches_unique : AreSearches searches
searches_unique = (unfold lookup in refl, tt)

invalidate_expired_example :
    ((get_datastore 1 200 (codes "data/a") none cache).0 ≡ some (codes "store-1"))
    × (invalidate 1 200 (codes "data/a") none cache
        ≡ (err value_error, put_dict none (search_dict 1 200 (codes "data/a") searches).1 cache))
invalidate_expired_example =
    invalidate_expired 1 200 (codes "data/a") none searches cache old_page (codes "data")
      (unfold job_dict in refl) searches_unique page_found page_is_old
