-- ===== src/Rest/Datastore/Endpoints/Deleted.antt =====
-- What deletions leave in a datastore.
use ma_sinafadavi_claude.Rest.Cache.{or_empty}
use ma_sinafadavi_claude.Rest.Job.{StrDict}
use ma_sinafadavi_claude.Rest.Datastore.Endpoints.{
  not_found, delete_data, get_data, delete_name, delete_job_data, data_list, store_end, is_job_data,
  Datastore, no_data, delete_names, delete_paths, found_file, ends_with_result,
}
use ma_sinafadavi_claude.Prelude.{
  List, ◌≡◌, ◌∷◌, ◌&&◌, if◌then◌else◌, refl, Bool, true, false, not, [], arith, Str, remove, member,
  str_eq, str_eq_iff, is_empty, keys, err, ok, attribute_error, ◌∙◌, ap, Option, none, some,
  member-keep, after-eq-ok, after, lookup, lookup-remove, Result, keep, Error, insert, str_eq_self,
  lookup-insert, ◌++◌, codes, starts_with,
}
use ma_sinafadavi_claude.Rest.Datastore.File.{created}

member-keys-remove :
    {V : Type 0} (x k : Str) (d : List (Str × V))
    → member x (keys (remove k d)) ≡ (member x (keys d) && not (str_eq k x))
unfolding keys remove member
member-keys-remove x k [] = refl
member-keys-remove x k ((j, w) ∷ d) =
    ground (arith, member-keys-remove x k d, str_eq_iff j k, str_eq_iff j x, str_eq_iff k x)

answered :
    (r : Result Bool × Datastore)
    → (after {0, 0, 0} r (λ b s'. (if b then ok tt else err no_data, s'))).1 ≡ r.1
answered (ok b, s) = refl
answered (err e, s) = refl

delete_data-state :
    (removedirs : Str → Bool) (name : Str) (s : Datastore)
    → (delete_data removedirs name s).1
      ≡ record { data_files = remove name s.data_files; stored_data = remove name s.stored_data }
unfolding delete_data delete_name
delete_data-state removedirs name s = answered (delete_name removedirs name s)

get_data-removed :
    (name x : Str) (s : Datastore)
    → get_data x
        (record { data_files = remove name s.data_files; stored_data = remove name s.stored_data })
      ≡ (if str_eq name x then err not_found else get_data x s)
unfolding get_data
get_data-removed name x s =
    ap (λ o. found_file o (lookup x (remove name s.data_files)))
      (lookup-remove name x s.stored_data)
    ∙ (ap (found_file (if str_eq name x then none else lookup x s.stored_data))
          (lookup-remove name x s.data_files)
        ∙ by_equality (str_eq name x) (lookup x s.stored_data) (lookup x s.data_files))
  where
    by_equality :
        (b : Bool) (o p : Option Str)
        → found_file (if b then none else o) (if b then none else p)
          ≡ (if b then err not_found else found_file o p)
    by_equality true o p = refl
    by_equality false o p = refl

-- A name that is deleted is not listed any more and not found, and all other names are listed and
-- found as before, whatever the endpoint answers.
pub delete_data-gone :
    (removedirs : Str → Bool) (name x : Str) (s : Datastore)
    → (member x (data_list (delete_data removedirs name s).1)
        ≡ (member x (data_list s) && not (str_eq name x)))
      × (get_data x (delete_data removedirs name s).1
          ≡ (if str_eq name x then err not_found else get_data x s))
unfolding data_list
delete_data-gone removedirs name x s = (
  ap (λ t. member x (keys t.stored_data)) (delete_data-state removedirs name s)
      ∙ member-keys-remove x name s.stored_data,
  ap (get_data x) (delete_data-state removedirs name s) ∙ get_data-removed name x s,
)

-- one name deleted
delete_name-listed :
    (removedirs : Str → Bool) (name x : Str) (s : Datastore)
    → member x (data_list (delete_name removedirs name s).1)
      ≡ (member x (data_list s) && not (str_eq name x))
unfolding data_list delete_name
delete_name-listed removedirs name x s = member-keys-remove x name s.stored_data

-- after the deletions of a list of names, none of which raises
delete_names-listed :
    (removedirs : Str → Bool) (names : List Str) (x : Str) (s t : Datastore)
    → delete_names removedirs names s ≡ (ok tt, t)
    → member x (data_list t) ≡ (member x (data_list s) && not (member x names))
unfolding delete_names member
delete_names-listed removedirs [] x s t h = rw (← ap (λ r. r.1) h) (ground arith)
delete_names-listed removedirs (name ∷ names) x s t h =
    let (b, e, k) =
      after-eq-ok (delete_name removedirs name s) (λ b s'. delete_names removedirs names s') h in
    let n = delete_names-listed removedirs names x (delete_name removedirs name s).1 t k in
    ground (arith, n, delete_name-listed removedirs name x s)

ends_with_result-append : (y : Str) → ends_with_result (y ++ codes "/result") ≡ true
unfolding ends_with_result str_eq
ends_with_result-append [] = refl
ends_with_result-append (c ∷ y) = ground (arith, ends_with_result-append y)

job_data-listed :
    (removedirs : Str → Bool) (job_id x : Str) (s t : Datastore)
    → delete_job_data removedirs job_id s ≡ (ok tt, t)
    → member x (data_list t)
      ≡ (member x (data_list s) && not (starts_with x job_id && not (ends_with_result x)))
unfolding delete_job_data data_list is_job_data
job_data-listed removedirs job_id x s t h =
    let n =
      delete_names-listed removedirs (keep (is_job_data job_id) (keys s.stored_data)) x s t h in
    ground (arith, n, member-keep (is_job_data job_id) x (keys s.stored_data))

-- When delete_job_data succeeds, exactly those data are no longer listed whose names begin with the
-- job's id and do not end in "/result"; and a name that ends so is listed afterwards
-- exactly if it was before.
pub delete_job_data-listed :
    (removedirs : Str → Bool) (job_id x y : Str) (s t : Datastore)
    → delete_job_data removedirs job_id s ≡ (ok tt, t)
    → (member x (data_list t)
        ≡ (member x (data_list s) && not (starts_with x job_id && not (ends_with_result x))))
      × (member (y ++ codes "/result") (data_list t) ≡ member (y ++ codes "/result") (data_list s))
delete_job_data-listed removedirs job_id x y s t h = (
  job_data-listed removedirs job_id x s t h,
  ground (
    arith,
    job_data-listed removedirs job_id (y ++ codes "/result") s t h,
    ends_with_result-append y,
  ),
)

-- a listed name without a file
get_data-orphan :
    (name path : Str) (s : Datastore)
    → lookup name s.stored_data ≡ some path
    → lookup name s.data_files ≡ none
    → get_data name s ≡ err not_found
unfolding get_data
get_data-orphan name path s h k =
    ap (λ o. found_file o (lookup name s.data_files)) h ∙ ap (found_file (some path)) k

delete_paths-orphan :
    (pruned : Bool) (path : Str) (o p : Option Str)
    → is_empty path ≡ false
    → o ≡ some path
    → p ≡ none
    → delete_paths pruned o p ≡ err attribute_error
unfolding delete_paths
delete_paths-orphan pruned path o p n h k = rw (h, k) (ground (arith, n))

failed :
    (r : Result Bool × Datastore) (e : Error)
    → r.0 ≡ err e
    → (after {0, 0, 0} r (λ b s'. (if b then ok tt else err no_data, s'))).0 ≡ err e
failed (ok b, s) e h = absurd (ground arith)
failed (err f, s) e h = ground arith

delete_data-orphan :
    (removedirs : Str → Bool) (name path : Str) (s : Datastore)
    → is_empty path ≡ false
    → lookup name s.stored_data ≡ some path
    → lookup name s.data_files ≡ none
    → (delete_data removedirs name s).0 ≡ err attribute_error
unfolding delete_data delete_name
delete_data-orphan removedirs name path s n h k =
    failed (delete_name removedirs name s) attribute_error (
      delete_paths-orphan (removedirs (or_empty (lookup name s.stored_data))) path
        (lookup name s.stored_data) (lookup name s.data_files) n h k)

store_end-created :
    (name path : Str) (s : Datastore)
    → (store_end name path created s).1 ≡ record s { stored_data = insert name path s.stored_data }
unfolding store_end
store_end-created name path s = refl

member-lookup :
    (name path : Str) (d : StrDict) → lookup name d ≡ some path → member name (keys d) ≡ true
unfolding lookup member keys
member-lookup name path [] h = absurd (ground arith)
member-lookup name path ((k, v) ∷ d) h = ground (arith, member-lookup name path d)

-- If a name is deleted while its upload is still running, the end of the upload lists it although no
-- file object stands behind it: it is not found, and deleting it raises an AttributeError. The path
-- of the upload is not empty.
pub deleted_while_stored :
    (removedirs : Str → Bool) (name path : Str) (s t : Datastore)
    → is_empty path ≡ false
    → t ≡ (store_end name path created (delete_data removedirs name s).1).1
    → (member name (data_list t) ≡ true)
      × ((get_data name t ≡ err not_found)
          × ((delete_data removedirs name t).0 ≡ err attribute_error))
unfolding data_list
deleted_while_stored removedirs name path s t h e =
    let u = (delete_data removedirs name s).1 in
    let d = delete_data-state removedirs name s in
    let e' = e ∙ store_end-created name path u in
    let listed : lookup name t.stored_data ≡ some path =
      ap (λ v. lookup name v.stored_data) e'
      ∙ (lookup-insert name name path u.stored_data ∙ ground (arith, str_eq_self name)) in
    let orphan : lookup name t.data_files ≡ none =
      ap (λ v. lookup name v.data_files) e'
      ∙ (ap (λ v. lookup name v.data_files) d
          ∙ (lookup-remove name name s.data_files ∙ ground (arith, str_eq_self name))) in
    (
      member-lookup name path t.stored_data listed,
      (
        get_data-orphan name path t listed orphan,
        delete_data-orphan removedirs name path t h listed orphan,
      ),
    )
