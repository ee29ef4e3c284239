-- ===== src/Rest/Job/Uploads.antt =====
-- The uploads of a client as one list of entries, and the names that the rewritten job has for them.
use ma_sinafadavi_claude.Rest.Model.{Source}
use ma_sinafadavi_claude.Prelude.{
  keys, member, Str, insert, values, ◌∷◌, ◌++◌, append_assoc, [], ◌∙◌, ◌≡◌, ◌||◌, refl, sym, ap,
  false, List, map, append-nil, arith, str_eq_self, str_eq, str_eq_iff, member-append,
  if◌then◌else◌, true, is_empty, ok, ◌>>=◌, Bool, lookup-insert,
}
use ma_sinafadavi_claude.Rest.Job.{
  StrDict, job_data_name, List, insert_all, renamed, stdin_name, exec_wasm, wasm_upload,
  files_to_upload, stdin_upload, invalid_formatting, JobInfo, named, placed, transform_stdin,
  transform_placed, get_item, transform_text, second,
}

-- no text stands twice
abbrev pub AreDistinct : List Str → Type 0
AreDistinct [] = Unit
AreDistinct (x ∷ xs) = (member x xs ≡ false) × AreDistinct xs

pub keys-insert :
    {V : Type 0} (k : Str) (v : V) (d : List (Str × V))
    → member k (keys d) ≡ false
    → keys (insert k v d) ≡ keys d ++ k ∷ []
unfolding keys insert member
keys-insert k v [] h = refl
keys-insert k v ((j, w) ∷ d) h = ground (arith, keys-insert k v d)

pub values-insert :
    {V : Type 0} (k : Str) (v : V) (d : List (Str × V))
    → member k (keys d) ≡ false
    → values (insert k v d) ≡ values d ++ v ∷ []
unfolding keys values insert member
values-insert k v [] h = refl
values-insert k v ((j, w) ∷ d) h = ground (arith, values-insert k v d)

pub member-keys-insert :
    {V : Type 0} (x k : Str) (v : V) (d : List (Str × V))
    → member x (keys (insert k v d)) ≡ (str_eq k x || member x (keys d))
unfolding keys insert member
member-keys-insert x k v [] = ground arith
member-keys-insert x k v ((j, w) ∷ d) =
    ground (arith, member-keys-insert x k v d, str_eq_iff j k, str_eq_iff k x, str_eq_iff j x)

pub distinct_front : (k : Str) (xs ys : List Str) → AreDistinct (xs ++ k ∷ ys) → member k xs ≡ false
unfolding member
distinct_front k [] ys h = refl
distinct_front k (x ∷ xs) ys h = ground (
  arith,
  distinct_front k xs ys h.1,
  h.0,
  member-append x xs (k ∷ ys),
  str_eq_iff x k,
  str_eq_iff k x,
  str_eq_self k,
)

pub distinct_insert :
    (host path : Str) (d entries : StrDict)
    → AreDistinct (keys d ++ host ∷ keys entries)
    → AreDistinct (keys (insert host path d) ++ keys entries)
distinct_insert host path d entries h =
    rw
      (
        keys-insert host path d (distinct_front host (keys d) (keys entries) h),
        append_assoc (keys d) (host ∷ []) (keys entries),
      )
      h

pub values-insert_all :
    (entries d : StrDict)
    → AreDistinct (keys d ++ keys entries)
    → values (insert_all entries d) ≡ values d ++ values entries
unfolding insert_all keys values
values-insert_all [] d h = sym (append-nil (values d))
values-insert_all ((host, path) ∷ entries) d h =
    values-insert_all entries (insert host path d) (distinct_insert host path d entries h)
    ∙ (ap (λ vs. vs ++ values entries)
          (values-insert host path d (distinct_front host (keys d) (keys entries) h))
        ∙ append_assoc (values d) (path ∷ []) (values entries))

-- the names that a job's files have at the broker
pub member-keys-renamed :
    (id x : Str) (paths : List Str) (d : StrDict)
    → member x (keys (renamed id paths d))
      ≡ (member x (map (job_data_name id) paths) || member x (keys d))
unfolding renamed member
member-keys-renamed id x [] d = refl
member-keys-renamed id x (p ∷ paths) d = ground (
  arith,
  member-keys-renamed id x paths (insert (job_data_name id p) p d),
  member-keys-insert x (job_data_name id p) p d,
)

unfoldable pub wasm_entries : Bool → Source → StrDict
wasm_entries true bin = []
wasm_entries false (named path) = (path, exec_wasm) ∷ []
wasm_entries false (placed host name) = []

unfoldable pub stdin_entries : Bool → Source → StrDict
stdin_entries true source = []
stdin_entries false (named path) = if is_empty path then [] else (path, stdin_name) ∷ []
stdin_entries false (placed host name) = if is_empty host then [] else (host, name) ∷ []

-- the files of a job, by their paths at the client
unfoldable pub entries : JobInfo → StrDict
unfolding wasm_entries stdin_entries
entries j =
    wasm_entries j.wasm_bin_is_named j.wasm_bin
    ++ (stdin_entries j.stdin_is_named j.stdin ++ j.job_data)

-- the name by which the executor fetches the program, if it is the job's own
unfoldable pub wasm_names : Bool → Source → List Str
wasm_names true bin = []
wasm_names false (named s) = s ∷ []
wasm_names false (placed s name) = s ∷ []

-- what the executor fetches under the job's own names
unfoldable pub own_names : JobInfo → List Str
unfolding wasm_names
own_names j = wasm_names j.wasm_bin_is_named j.wasm_bin ++ keys j.job_data

pub stdin_upload-entries :
    (b : Bool) (source : Source) (files d : StrDict)
    → insert_all files (stdin_upload b source d) ≡ insert_all (stdin_entries b source ++ files) d
unfolding stdin_upload stdin_entries insert_all
stdin_upload-entries true source files d = refl
stdin_upload-entries false (named path) files d = ground arith
stdin_upload-entries false (placed host name) files d = ground arith

pub ok_inj : (a b : StrDict) → ok a ≡ ok b → a ≡ b
ok_inj a b h = ground arith

pub wasm_upload-entries :
    (b : Bool) (bin : Source) (files : StrDict) (f : StrDict → StrDict) (u : StrDict)
    → ((d : StrDict) → f d ≡ insert_all files d)
    → invalid_formatting (wasm_upload b bin >>= λ d. ok (f d)) ≡ ok u
    → u ≡ insert_all (wasm_entries b bin ++ files) []
unfolding wasm_upload wasm_entries invalid_formatting insert_all insert
wasm_upload-entries true bin files f u h k = sym (ok_inj (f []) u k) ∙ h []
wasm_upload-entries false (named path) files f u h k =
    sym (ok_inj (f ((path, exec_wasm) ∷ [])) u k) ∙ h ((path, exec_wasm) ∷ [])
wasm_upload-entries false (placed host name) files f u h k = absurd (ground arith)

pub files_to_upload-entries :
    (j : JobInfo) (u : StrDict) → files_to_upload j ≡ ok u → u ≡ insert_all (entries j) []
unfolding files_to_upload entries
files_to_upload-entries j u =
    wasm_upload-entries j.wasm_bin_is_named j.wasm_bin
      (stdin_entries j.stdin_is_named j.stdin ++ j.job_data)
      (λ d. insert_all j.job_data (stdin_upload j.stdin_is_named j.stdin d)) u
      (stdin_upload-entries j.stdin_is_named j.stdin j.job_data)

pub values-append : (a b : StrDict) → values (a ++ b) ≡ values a ++ values b
unfolding values
values-append [] b = refl
values-append ((k, v) ∷ a) b = ap (λ vs. v ∷ vs) (values-append a b)

pub map-append : (f : Str → Str) (a b : List Str) → map f (a ++ b) ≡ map f a ++ map f b
map-append f [] b = refl
map-append f (x ∷ a) b = ap (λ ys. f x ∷ ys) (map-append f a b)

-- the values that the second step leaves, if it does not fail
pub transform_stdin-values :
    (id : Str) (b : Bool) (source : Source) (j j' : JobInfo)
    → ((n : Str) → member (job_data_name id n) (keys j.job_data) ≡ false)
    → transform_stdin id b source j ≡ (ok tt, j')
    → (values j'.job_data ≡ values j.job_data ++ values (stdin_entries b source))
      × ((j'.wasm_bin ≡ j.wasm_bin) × (j'.wasm_bin_is_named ≡ j.wasm_bin_is_named))
unfolding transform_stdin transform_text transform_placed stdin_entries second get_item values
transform_stdin-values id true source j j' n h = ground (arith, append-nil (values j.job_data))
transform_stdin-values id false (named []) j j' n h = absurd (ground arith)
transform_stdin-values id false (named (c ∷ [])) j j' n h = absurd (ground arith)
transform_stdin-values id false (named (c ∷ d ∷ s)) j j' n h =
    ground (arith, values-insert (job_data_name id (d ∷ [])) stdin_name j.job_data (n (d ∷ [])))
transform_stdin-values id false (placed [] name) j j' n h =
    ground (arith, append-nil (values j.job_data))
transform_stdin-values id false (placed (c ∷ host) name) j j' n h = ground (
  arith,
  values-insert (job_data_name id name) name j.job_data (n name),
  lookup-insert (job_data_name id name) (job_data_name id name) name j.job_data,
  str_eq_self (job_data_name id name),
)
