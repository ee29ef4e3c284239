-- ===== src/Rest/Job/Fetched.antt =====
-- What a client uploads for a job is what the executor will fetch.
-- what the last step makes of the one before
use ma_sinafadavi_claude.Rest.Model.{Source}
use ma_sinafadavi_claude.Rest.Job.{
  wasm_upload, job_data_name, StrDict, invalid_formatting, transform_wasm, files_to_upload,
  transform_job_info_broker, stdin_upload, transform_stdin, insert_all, JobInfo, renamed, named,
  placed,
}
use ma_sinafadavi_claude.Rest.Job.Uploads.{
  AreDistinct, stdin_entries, wasm_entries, files_to_upload-entries, transform_stdin-values,
  map-append, values-append, member-keys-renamed, wasm_names, own_names, values-insert_all, entries,
}
use ma_sinafadavi_claude.Prelude.{
  List, ◌∙◌, ◌≡◌, ◌++◌, ◌||◌, ◌>>=◌, refl, sym, ap, Bool, true, false, [], map, arith, values,
  member, member-append, Result, Str, after, keys, ok, err,
}

unfoldable pub rebuilt : Str → Result (Unit {0}) × JobInfo → Result (Unit {0}) × JobInfo
unfolding invalid_formatting
rebuilt id s =
    let (r, j') =
      after s (λ _ j'. (ok tt, record j' { job_data = renamed id (values j'.job_data) [] })) in
    (invalid_formatting r, j')

pub rebuilt-eq-ok :
    (id : Str) (s : Result (Unit {0}) × JobInfo) (j' : JobInfo)
    → rebuilt id s ≡ (ok tt, j')
    → (s ≡ (ok tt, s.1)) × (j' ≡ record s.1 { job_data = renamed id (values s.1.job_data) [] })
unfolding rebuilt invalid_formatting
rebuilt-eq-ok id (ok _, t) j' h = ground arith
rebuilt-eq-ok id (err e, t) j' h = absurd (ground arith)

-- the job's program, where there is one to upload, gets the name under which it is uploaded
wasm_names-entries :
    (id : Str) (b : Bool) (bin : Source) (f : StrDict → StrDict) (u : StrDict)
    → invalid_formatting (wasm_upload b bin >>= λ d. ok (f d)) ≡ ok u
    → wasm_names b (transform_wasm id b bin) ≡ map (job_data_name id) (values (wasm_entries b bin))
unfolding wasm_names transform_wasm wasm_entries values wasm_upload invalid_formatting
wasm_names-entries id true bin f u h = refl
wasm_names-entries id false (named s) f u h = refl
wasm_names-entries id false (placed host name) f u h = absurd (ground arith)

member-uploads :
    (id x : Str) (w s d : StrDict)
    → member x (map (job_data_name id) (values (w ++ (s ++ d)))) ≡ (
        member x (map (job_data_name id) (values w))
        || (member x (map (job_data_name id) (values s))
            || member x (map (job_data_name id) (values d))))
member-uploads id x w s d =
    rw
      (
        values-append w (s ++ d),
        values-append s d,
        map-append (job_data_name id) (values w) (values s ++ values d),
        map-append (job_data_name id) (values s) (values d),
        member-append x (map (job_data_name id) (values w))
            (map (job_data_name id) (values s) ++ map (job_data_name id) (values d)),
        member-append x (map (job_data_name id) (values s)) (map (job_data_name id) (values d)),
      )
      refl

member-renamed_all :
    (id x : Str) (ws a b : List Str)
    → member x (ws ++ keys (renamed id (a ++ b) [])) ≡ (
        member x ws || (member x (map (job_data_name id) a) || member x (map (job_data_name id) b)))
unfolding keys member
member-renamed_all id x ws a b = ground (
  arith,
  member-append x ws (keys (renamed id (a ++ b) [])),
  member-keys-renamed id x (a ++ b) [],
  map-append (job_data_name id) a b,
  member-append x (map (job_data_name id) a) (map (job_data_name id) b),
)

member-own_names :
    (id x : Str) (j j' t : JobInfo) (s : StrDict)
    → j' ≡ record t { job_data = renamed id (values t.job_data) [] }
    → values t.job_data ≡ values j.job_data ++ values s
    → member x (own_names j') ≡ (
        member x (wasm_names t.wasm_bin_is_named t.wasm_bin)
        || (member x (map (job_data_name id) (values j.job_data))
            || member x (map (job_data_name id) (values s))))
unfolding own_names
member-own_names id x j j' t s e v =
    ap (λ i. member x (own_names i)) e
    ∙ (ap (λ vs. member x (wasm_names t.wasm_bin_is_named t.wasm_bin ++ keys (renamed id vs []))) v
        ∙ member-renamed_all id x (wasm_names t.wasm_bin_is_named t.wasm_bin) (values j.job_data)
            (values s))

-- the job after the step that rewrites stdin
unfoldable pub after_stdin : Str → JobInfo → Result (Unit {0}) × JobInfo
after_stdin id j =
    transform_stdin id j.stdin_is_named j.stdin
      (record j { wasm_bin = transform_wasm id j.wasm_bin_is_named j.wasm_bin })

pub transform_steps :
    (id : Str) (j : JobInfo) → transform_job_info_broker id j ≡ rebuilt id (after_stdin id j)
unfolding transform_job_info_broker rebuilt after_stdin
transform_steps id j = refl

files_to_upload-wasm :
    (id : Str) (j : JobInfo) (u : StrDict)
    → files_to_upload j ≡ ok u
    → wasm_names j.wasm_bin_is_named (transform_wasm id j.wasm_bin_is_named j.wasm_bin)
      ≡ map (job_data_name id) (values (wasm_entries j.wasm_bin_is_named j.wasm_bin))
unfolding files_to_upload
files_to_upload-wasm id j u =
    wasm_names-entries id j.wasm_bin_is_named j.wasm_bin
      (λ d. insert_all j.job_data (stdin_upload j.stdin_is_named j.stdin d)) u

uploaded_values :
    (j : JobInfo) (u : StrDict)
    → AreDistinct (keys (entries j))
    → files_to_upload j ≡ ok u
    → values u ≡ values (entries j)
unfolding keys values
uploaded_values j u distinct h =
    ap values (files_to_upload-entries j u h) ∙ values-insert_all (entries j) [] distinct

member-entries :
    (id x : Str) (j : JobInfo)
    → member x (map (job_data_name id) (values (entries j))) ≡ (
        member x (map (job_data_name id) (values (wasm_entries j.wasm_bin_is_named j.wasm_bin)))
        || (member x (map (job_data_name id) (values (stdin_entries j.stdin_is_named j.stdin)))
            || member x (map (job_data_name id) (values j.job_data))))
unfolding entries
member-entries id x j =
    member-uploads id x (wasm_entries j.wasm_bin_is_named j.wasm_bin)
      (stdin_entries j.stdin_is_named j.stdin) j.job_data

-- If a client makes a list of uploads for a job, and rewrites the job for the broker without an
-- exception, then the executor's names for the job's own files - the program's, if it is not a named
-- one, and those of the job data - are exactly the names under which the client uploads. The files of
-- the job are different files at the client, and no path of its job data begins with the job's id.
pub uploads_fetched :
    (id x : Str) (j j' : JobInfo) (u : StrDict)
    → AreDistinct (keys (entries j))
    → ((n : Str) → member (job_data_name id n) (keys j.job_data) ≡ false)
    → files_to_upload j ≡ ok u
    → transform_job_info_broker id j ≡ (ok tt, j')
    → member x (own_names j') ≡ member x (map (job_data_name id) (values u))
uploads_fetched id x j j' u distinct fresh h k =
    let (e, e') = rebuilt-eq-ok id (after_stdin id j) j' (sym (transform_steps id j) ∙ k) in
    let t = (after_stdin id j).1 in
    let (v, (w, b)) =
      transform_stdin-values id j.stdin_is_named j.stdin
        (record j { wasm_bin = transform_wasm id j.wasm_bin_is_named j.wasm_bin }) t fresh
        (unfold after_stdin in e) in
    let names : wasm_names t.wasm_bin_is_named t.wasm_bin
        ≡ map (job_data_name id) (values (wasm_entries j.wasm_bin_is_named j.wasm_bin)) =
      rw (b, w) (files_to_upload-wasm id j u h) in
    rw
      (
        member-own_names id x j j' t (stdin_entries j.stdin_is_named j.stdin) e' v,
        names,
        uploaded_values j u distinct h,
        member-entries id x j,
      )
      (ground arith)
