-- ===== src/Rest/Client/Rewritten.antt =====
-- What becomes of a program that is a text when its job is sent, and what is uploaded for it.
use ma_sinafadavi_claude.Rest.Job.Uploads.{member-keys-insert}
use ma_sinafadavi_claude.Rest.Client.Results.{member-keys-insert_all}
use ma_sinafadavi_claude.Rest.Job.Fetched.{rebuilt-eq-ok, after_stdin, transform_steps}
use ma_sinafadavi_claude.Rest.Job.{
  transform_placed, get_item, transform_stdin, transform_text, job_data_name, second,
  invalid_formatting, transform_job_info_broker, transform_wasm, StrDict, wasm_upload,
  files_to_upload, stdin_name, stdin_upload, exec_wasm, insert_all,
}
use ma_sinafadavi_claude.Rest.Model.{JobInfo, named, placed, Source}
use ma_sinafadavi_claude.Prelude.{
  ◌≡◌, ◌∷◌, refl, Bool, true, false, [], Str, insert, lookup, ◌∙◌, ◌>>=◌, sym, ap, some, arith,
  str_eq_self, lookup-insert, keys, member, ok,
}

own_item :
    (id name : Str) (j : JobInfo)
    → lookup (job_data_name id name) (insert (job_data_name id name) name j.job_data) ≡ some name
own_item id name j =
    lookup-insert (job_data_name id name) (job_data_name id name) name j.job_data
    ∙ ground (arith, str_eq_self (job_data_name id name))

text_name :
    (id : Str) (b : Bool) (bin : Source) (s : Str)
    → b ≡ false
    → bin ≡ named s
    → transform_wasm id b bin ≡ named (job_data_name id exec_wasm)
unfolding transform_wasm
text_name id b bin s h e = rw (h, e) refl

text_entry :
    (b : Bool) (bin : Source) (s : Str)
    → b ≡ false
    → bin ≡ named s
    → wasm_upload b bin ≡ ok ((s, exec_wasm) ∷ [])
unfolding wasm_upload
text_entry b bin s h e = rw (h, e) refl

transform_stdin-wasm :
    (id : Str) (b : Bool) (source : Source) (j : JobInfo)
    → ((transform_stdin id b source j).1.wasm_bin ≡ j.wasm_bin)
      × ((transform_stdin id b source j).1.wasm_bin_is_named ≡ j.wasm_bin_is_named)
unfolding transform_stdin transform_text transform_placed second get_item
transform_stdin-wasm id true source j = (refl, refl)
transform_stdin-wasm id false (named []) j = (refl, refl)
transform_stdin-wasm id false (named (c ∷ [])) j = (refl, refl)
transform_stdin-wasm id false (named (c ∷ d ∷ s)) j = (refl, refl)
transform_stdin-wasm id false (placed [] name) j = (refl, refl)
transform_stdin-wasm id false (placed (c ∷ host) name) j =
    (ground (arith, own_item id name j), ground (arith, own_item id name j))

after_stdin-wasm :
    (id : Str) (j : JobInfo)
    → ((after_stdin id j).1.wasm_bin ≡ transform_wasm id j.wasm_bin_is_named j.wasm_bin)
      × ((after_stdin id j).1.wasm_bin_is_named ≡ j.wasm_bin_is_named)
unfolding after_stdin
after_stdin-wasm id j =
    transform_stdin-wasm id j.stdin_is_named j.stdin
      (record j { wasm_bin = transform_wasm id j.wasm_bin_is_named j.wasm_bin })

pub transformed-wasm :
    (id s : Str) (j j' : JobInfo)
    → j.wasm_bin_is_named ≡ false
    → j.wasm_bin ≡ named s
    → transform_job_info_broker id j ≡ (ok tt, j')
    → (j'.wasm_bin ≡ named (job_data_name id exec_wasm)) × (j'.wasm_bin_is_named ≡ false)
transformed-wasm id s j j' b e k =
    let (_, e') = rebuilt-eq-ok id (after_stdin id j) j' (sym (transform_steps id j) ∙ k) in
    let (w, n) = after_stdin-wasm id j in
    (
      ap (λ i. i.wasm_bin) e' ∙ (w ∙ text_name id j.wasm_bin_is_named j.wasm_bin s b e),
      ap (λ i. i.wasm_bin_is_named) e' ∙ (n ∙ b),
    )

keys-stdin_upload :
    (x : Str) (b : Bool) (source : Source) (d : StrDict)
    → member x (keys d) ≡ true
    → member x (keys (stdin_upload b source d)) ≡ true
unfolding stdin_upload
keys-stdin_upload x true source d h = h
keys-stdin_upload x false (named []) d h = h
keys-stdin_upload x false (named (c ∷ s)) d h =
    ground (arith, h, member-keys-insert x (c ∷ s) stdin_name d)
keys-stdin_upload x false (placed [] name) d h = h
keys-stdin_upload x false (placed (c ∷ s) name) d h =
    ground (arith, h, member-keys-insert x (c ∷ s) name d)

-- what is uploaded for a program that is a text
unfoldable pub text_upload : Str → JobInfo → StrDict
text_upload s j =
    insert_all j.job_data (stdin_upload j.stdin_is_named j.stdin ((s, exec_wasm) ∷ []))

pub files_to_upload-text :
    (s : Str) (j : JobInfo)
    → j.wasm_bin_is_named ≡ false
    → j.wasm_bin ≡ named s
    → files_to_upload j ≡ ok (text_upload s j)
unfolding files_to_upload wasm_upload invalid_formatting text_upload
files_to_upload-text s j b e =
    ap
      (λ r.
        invalid_formatting
          (r >>= λ d. ok (insert_all j.job_data (stdin_upload j.stdin_is_named j.stdin d))))
      (text_entry j.wasm_bin_is_named j.wasm_bin s b e)

pub member-text_upload : (s : Str) (j : JobInfo) → member s (keys (text_upload s j)) ≡ true
unfolding text_upload
member-text_upload s j = ground (
  arith,
  member-keys-insert_all s j.job_data (stdin_upload j.stdin_is_named j.stdin ((s, exec_wasm) ∷ [])),
  keys-stdin_upload s j.stdin_is_named j.stdin ((s, exec_wasm) ∷ [])
      (unfold keys member in ground (arith, str_eq_self s)),
)
