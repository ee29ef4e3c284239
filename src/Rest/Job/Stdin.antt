-- ===== src/Rest/Job/Stdin.antt =====
-- What becomes of the stdin of a job.
use ma_sinafadavi_claude.Rest.Job.Internal.{internal_job_info, Dirs, wasm_place, stdin_place}
use ma_sinafadavi_claude.Rest.Job.Fetched.{rebuilt, after_stdin, rebuilt-eq-ok, transform_steps}
use ma_sinafadavi_claude.Rest.Model.{Source}
use ma_sinafadavi_claude.Prelude.{
  ◌≡◌, ◌∷◌, ◌<◌, ◌⊎◌, refl, inl, inr, Bool, true, false, [], arith, Result, length, Str,
  lookup-insert, str_eq_self, err, index_error, ok, ◌∙◌, ℕ, sym, ap, attribute_error,
}
use ma_sinafadavi_claude.Rest.Job.{
  transform_stdin, get_item, job_data_name, transform_placed, transform_text, invalid_formatting,
  second, JobInfo, named, placed, transform_wasm, transform_job_info_broker,
}

transform_stdin_cases :
    (id : Str) (b : Bool) (source : Source) (j : JobInfo)
    → ((transform_stdin id b source j).0 ≡ ok tt)
      ⊎ ((b ≡ false)
          × ((s : Str) × ((source ≡ named s)
                × ((length s < 2) × ((transform_stdin id b source j).0 ≡ err index_error)))))
unfolding transform_stdin transform_text transform_placed get_item second
transform_stdin_cases id true source j = inl refl
transform_stdin_cases id false (named []) j = inr (refl, ([], (refl, (omega arith, refl))))
transform_stdin_cases id false (named (c ∷ [])) j =
    inr (refl, (c ∷ [], (refl, (omega arith, refl))))
transform_stdin_cases id false (named (c ∷ d ∷ s)) j = inl refl
transform_stdin_cases id false (placed [] name) j = inl refl
transform_stdin_cases id false (placed (c ∷ host) name) j = inl (
    ground (
      arith,
      lookup-insert (job_data_name id name) (job_data_name id name) name j.job_data,
      str_eq_self (job_data_name id name),
    ))

rebuilt_result :
    (id : Str) (s : Result (Unit {0}) × JobInfo) → (rebuilt id s).0 ≡ invalid_formatting s.0
unfolding rebuilt invalid_formatting
rebuilt_result id (ok _, t) = refl
rebuilt_result id (err e, t) = refl

transform_result :
    (id : Str) (j : JobInfo)
    → (transform_job_info_broker id j).0 ≡ invalid_formatting (after_stdin id j).0
transform_result id j = ap (λ r. r.0) (transform_steps id j) ∙ rebuilt_result id (after_stdin id j)

-- The rewriting of a job for the broker succeeds, unless the job's stdin is a text, not a named one,
-- with fewer than two characters: then it raises an IndexError, since it takes the second character
-- of the text for the name.
pub transform_job_info_broker-result :
    (id : Str) (j : JobInfo)
    → ((transform_job_info_broker id j).0 ≡ ok tt)
      ⊎ ((j.stdin_is_named ≡ false)
          × ((s : Str) × ((j.stdin ≡ named s)
                × ((length s < 2) × ((transform_job_info_broker id j).0 ≡ err index_error)))))
transform_job_info_broker-result id j =
    elim (transform_stdin_cases id j.stdin_is_named j.stdin
      (record j { wasm_bin = transform_wasm id j.wasm_bin_is_named j.wasm_bin })) [
        | inl e ↦ inl (
            transform_result id j
            ∙ unfold after_stdin invalid_formatting in ap invalid_formatting e)
        | inr (b, (s, (e, (l, r)))) ↦ inr (
          b,
          (
            s,
            (
              e,
              (
                l,
                transform_result id j
                    ∙ unfold after_stdin invalid_formatting in ap invalid_formatting r,
              ),
            ),
          ),
        )
      ]

transform_stdin-placed :
    (id : Str) (c : ℕ) (host name : Str) (j : JobInfo)
    → (transform_stdin id false (placed (c ∷ host) name) j).1.stdin ≡ placed name name
unfolding transform_stdin transform_placed get_item
transform_stdin-placed id c host name j = ground (
  arith,
  lookup-insert (job_data_name id name) (job_data_name id name) name j.job_data,
  str_eq_self (job_data_name id name),
)

placed_stdin :
    (id : Str) (b : Bool) (source : Source) (c : ℕ) (host name : Str) (j : JobInfo)
    → b ≡ false
    → source ≡ placed (c ∷ host) name
    → (transform_stdin id b source j).1.stdin ≡ placed name name
placed_stdin id b source c host name j h e = rw (h, e) (transform_stdin-placed id c host name j)

module _ (expanduser expandvars : Str → Str) where
  internal_job_info-placed :
      (dirs : Dirs) (j : JobInfo) (c : ℕ) (s name : Str) (w : Str × Str)
      → j.stdin ≡ placed (c ∷ s) name
      → wasm_place expanduser expandvars dirs.code j.wasm_bin ≡ ok w
      → internal_job_info expanduser expandvars dirs j ≡ err attribute_error
  unfolding internal_job_info stdin_place invalid_formatting
  internal_job_info-placed dirs j c s name w e h = rw (h, e) refl

  -- A job whose stdin is a tuple of a file of the client and a name, both not empty, is never run: if
  -- the client rewrites it for the broker, and the executor can place the program, the executor
  -- raises an AttributeError while it prepares the job.
  pub placed_stdin_fails :
      (id : Str) (dirs : Dirs) (j j' : JobInfo) (c d : ℕ) (host name : Str) (w : Str × Str)
      → j.stdin_is_named ≡ false
      → j.stdin ≡ placed (c ∷ host) (d ∷ name)
      → transform_job_info_broker id j ≡ (ok tt, j')
      → wasm_place expanduser expandvars dirs.code j'.wasm_bin ≡ ok w
      → internal_job_info expanduser expandvars dirs j' ≡ err attribute_error
  placed_stdin_fails id dirs j j' c d host name w b e k h =
      let (_, e') = rebuilt-eq-ok id (after_stdin id j) j' (sym (transform_steps id j) ∙ k) in
      internal_job_info-placed dirs j' d name (d ∷ name) w
        (ap (λ i. i.stdin) e'
          ∙ (unfold after_stdin in
              placed_stdin id j.stdin_is_named j.stdin c host (d ∷ name)
                (record j { wasm_bin = transform_wasm id j.wasm_bin_is_named j.wasm_bin }) b e))
        h
