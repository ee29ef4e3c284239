-- ===== src/Rest/Client/Results.antt =====
-- What the client's runs of jobs come to.
use ma_sinafadavi_claude.Rest.Job.{StrDict, insert_all, job_data_name}
use ma_sinafadavi_claude.Rest.Client.{
  upload_each, Broker, Disk, submit_uploaded, upload_and_submit, Client,
}
use ma_sinafadavi_claude.Rest.Job.Files.{try_store_named_data, Host, stored}
use ma_sinafadavi_claude.Rest.Job.Uploads.{member-keys-insert}
use ma_sinafadavi_claude.Rest.Model.{JobInfo}
use ma_sinafadavi_claude.Prelude.{
  List, ◌≡◌, ◌∷◌, ◌||◌, refl, true, false, Option, none, [], arith, Str, lookup, insert, member,
  keys, ◌∙◌, if◌then◌else◌, ap, Bool, some, Bytes, str_eq, str_eq_iff, ok,
}

pub member-keys-insert_all :
    (x : Str) (entries d : StrDict)
    → member x (keys (insert_all entries d)) ≡ (member x (keys entries) || member x (keys d))
unfolding insert_all keys member
member-keys-insert_all x [] d = refl
member-keys-insert_all x ((host, path) ∷ entries) d =
    ground (
      arith,
      member-keys-insert_all x entries (insert host path d),
      member-keys-insert x host path d,
    )

module _ {W : Type 0} (broker : Broker W) (host : Host)
    (submit : JobInfo → Str → List Str → W → Option Str × W) (delete_job : Str → W → W) where
  store_missing :
      (name path : Str) (s : Disk W)
      → lookup path s.files ≡ none
      → try_store_named_data broker host name path s ≡ (false, s)
  unfolding try_store_named_data stored
  store_missing name path s h = ap (stored broker host name s) h

  stored-files :
      (name : Str) (s : Disk W) (o : Option Bytes) → (stored broker host name s o).1.files ≡ s.files
  unfolding stored
  stored-files name s none = refl
  stored-files name s (some b) = refl

  try_store_named_data-files :
      (name path : Str) (s : Disk W)
      → (try_store_named_data broker host name path s).1.files ≡ s.files
  unfolding try_store_named_data
  try_store_named_data-files name path s = stored-files name s (lookup path s.files)

  upload_step :
      (id x path : Str) (uploads : StrDict) (s : Disk W) (r : Bool × Disk W)
      → r.1.files ≡ s.files
      → (str_eq path x ≡ true → r.0 ≡ false)
      → (str_eq path x || member x (keys uploads)) ≡ true
      → ((t : Disk W)
          → t.files ≡ s.files
          → member x (keys uploads) ≡ true
          → (upload_each broker host submit delete_job id uploads t).0 ≡ false)
      → (if r.0 then upload_each broker host submit delete_job id uploads r.1 else (false, r.1)).0
        ≡ false
  upload_step id x path uploads s (false, t) f e h k = refl
  upload_step id x path uploads s (true, t) f e h k = k t f (ground (arith, e, h))

  -- An upload fails if one of the files is not there.
  upload_missing :
      (id x : Str) (uploads : StrDict) (s t : Disk W)
      → t.files ≡ s.files
      → member x (keys uploads) ≡ true
      → lookup x s.files ≡ none
      → (upload_each broker host submit delete_job id uploads t).0 ≡ false
  unfolding upload_each keys member
  upload_missing id x [] s t e h k = absurd (ground arith)
  upload_missing id x ((path, name) ∷ uploads) s t e h k =
      upload_step id x path uploads t
        (try_store_named_data broker host (job_data_name id name) path t)
        (try_store_named_data-files (job_data_name id name) path t)
        (λ q.
          ap (λ r. r.0)
            (store_missing (job_data_name id name) path t (
              ap (λ f. lookup path f) e
              ∙ (ap (λ y. lookup y s.files) ((str_eq_iff path x).0 q) ∙ k))))
        h (λ u f m. upload_missing id x uploads s u (f ∙ e) m k)

  pub uploads_of :
      (is_address : Str → Bool) (job_name id x : Str) (j : JobInfo) (u : StrDict)
      (wait_for : Option (List Str)) (c : Client W)
      → member x (keys u) ≡ true
      → lookup x c.disk.files ≡ none
      → (c' : Client W) × (upload_and_submit broker host submit delete_job is_address job_name id u
            wait_for
            (j, c)
          ≡ (ok none, (j, c')))
  unfolding upload_and_submit
  uploads_of is_address job_name id x j u wait_for c m k =
      go (upload_each broker host submit delete_job id u c.disk)
        (upload_missing id x u c.disk c.disk refl m k)
    where
      go :
          (r : Bool × Disk W)
          → r.0 ≡ false
          → (c' : Client W) × ((if r.0
                then submit_uploaded broker host submit delete_job is_address job_name id wait_for
                    (j, record c { disk = r.1 })
                else (
                  ok none,
                  (j, record c { disk = record r.1 { world = delete_job id r.1.world } }),
                ))
              ≡ (ok none, (j, c')))
      go (true, d) e = absurd (ground arith)
      go (false, d) e = (record c { disk = record d { world = delete_job id d.world } }, refl)
