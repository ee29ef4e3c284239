-- ===== src/Dtn/Executor/Handlers.antt =====
-- How the executor takes bundles in.
use ma_sinafadavi_claude.Prelude.{
  Option, after, ◌∙◌, Bool, ◌&&◌, ◌||◌, none, some, List, [], ◌∷◌, ◌++◌, Str, Bytes, member, not,
  if◌then◌else◌, is_empty, Result, ok, err, Exec, name_taken, ◌≡◌, refl, arith, for_each, inl, inr,
  keys, Error, Option-cases, is_some, after-eq-ok, str_eq, codes,
}
use ma_sinafadavi_claude.Dtn.Message.{BundleData, Message, one, many, NamedData}
use ma_sinafadavi_claude.Dtn.Node.Rounds.{bundle_round_inv}
use ma_sinafadavi_claude.Dtn.Storage.{Storage, store_data, find_missing}
use ma_sinafadavi_claude.Dtn.Storage.Unique.{find_name, store_data-find_name}
use ma_sinafadavi_claude.Dtn.Storage.Views.{store_data_taken, find_name-insert_entry}
use ma_sinafadavi_claude.Dtn.Storage.Loads.{member-find_missing}
use ma_sinafadavi_claude.Dtn.Job.{JobInfo, required_named_data, Job}
use ma_sinafadavi_claude.Dtn.Executor.{
  Executor, Unpacked, plain, store_all, enqueue, accept_job, handle_job, handle_bundle,
  data_request, handle_data, job_object, as_job, round,
}

-- the name is entered in the cache
abbrev pub is_cached : Str → Storage → Bool
is_cached n s = is_some (find_name n s.db)

-- the bundles are one request of the node `id` to the datastores for these names, or none where there
-- are no names
abbrev pub AreRequests : Str → List Str → List BundleData → Type 0
AreRequests id [] out = out ≡ []
AreRequests id (m ∷ ms) out =
    (b : BundleData) × (out ≡ b ∷ [])
    × (b.type ≡ 22)
    × (b.source ≡ id)
    × (b.destination ≡ codes "dtn://rec.store/~")
    × (b.payload ≡ [])
    × (b.named_data ≡ some (many (m ∷ ms)))

data_request-AreRequests :
    (id : Str) (ms : List Str)
    → AreRequests id ms (if is_empty ms then [] else data_request id ms ∷ [])
unfolding data_request
data_request-AreRequests id [] = refl
data_request-AreRequests id (m ∷ ms) =
    (data_request id (m ∷ ms), refl, refl, refl, refl, refl, refl)

AreRequests-same :
    (id : Str) (ms : List Str) (o out : List BundleData)
    → o ≡ out
    → AreRequests id ms o
    → AreRequests id ms out
AreRequests-same id ms o out e h = rw (← e) h

enqueue-AreRequests :
    (j : JobInfo) (e : Executor)
    → AreRequests e.node.node_id (find_missing (required_named_data j) e.storage) (enqueue j e).0
unfolding enqueue
enqueue-AreRequests j e =
    data_request-AreRequests e.node.node_id (find_missing (required_named_data j) e.storage)

module _ (sha1 : Bytes → Str) where
  store_data-is_cached :
      (n m : Str) (c : Bytes) (s s' : Storage)
      → store_data sha1 n c s ≡ (ok tt, s')
      → is_cached m s' ≡ (str_eq n m || is_cached m s)
  unfolding is_some
  store_data-is_cached n m c s s' h = elim (Option-cases (find_name n s.db)) [
    | inl free ↦
        ground (arith, store_data-find_name sha1 n c s, find_name-insert_entry sha1 n m c s free)
    | inr (f, taken) ↦ absurd (ground (arith, store_data_taken sha1 n f c s taken))
  ]

  store_all-is_cached :
      (cs : List (Str × Bytes)) (m : Str) (s s' : Storage)
      → store_all sha1 cs s ≡ (ok tt, s')
      → is_cached m s' ≡ (member m (keys cs) || is_cached m s)
  unfolding store_all member keys
  store_all-is_cached [] m s s' h = ground arith
  store_all-is_cached ((n, c) ∷ cs) m s s' h =
      let (u, first, rest) = after-eq-ok (store_data sha1 n c s) (λ _. store_all sha1 cs) h in
      let s₁ = (store_data sha1 n c s).1 in
      ground (arith, store_data-is_cached n m c s s₁ first, store_all-is_cached cs m s₁ s' rest)

  -- A job that is accepted goes to the end of the queue. The bundles that are to be sent for it are
  -- one NDATA_GET from the executor to the address of all datastores, or none where nothing is
  -- missing; and it names exactly those of the job's required names that neither came with the job
  -- nor were cached before.
  pub accept_job-requested :
      (j : Job) (e e' : Executor) (out : List BundleData)
      → accept_job sha1 j e ≡ (ok out, e')
      → (e'.pending_jobs ≡ e.pending_jobs ++ j.metadata ∷ [])
        × ((ms : List Str) × AreRequests e.node.node_id ms out
            × ((n : Str)
                → member n ms ≡ (
                    member n (required_named_data j.metadata)
                    && not (member n (keys j.contents) || is_cached n e.storage))))
  unfolding accept_job
  accept_job-requested j e e' out h =
      let s' = (store_all sha1 j.contents e.storage).1 in
      let e₁ : Executor = record e { storage = s' } in
      let (u, stored, rest) =
        after-eq-ok ((store_all sha1 j.contents e.storage).0, e₁)
          (λ _ e₂. let (o, e₃) = enqueue j.metadata e₂ in (ok o, e₃)) h in
      (
        unfold enqueue in ground (arith, rest),
        (
          find_missing (required_named_data j.metadata) s',
          AreRequests-same e.node.node_id (find_missing (required_named_data j.metadata) s')
              (enqueue j.metadata e₁).0 out (ground (arith, rest))
              (enqueue-AreRequests j.metadata e₁),
          λ n. ground (
            arith,
            member-find_missing n (required_named_data j.metadata) s',
            store_all-is_cached j.contents n e.storage s' (λ i. ((stored i).0, s')),
          ),
        ),
      )

  -- A job that brings a name which is cached already is refused: the exception keeps it out of the
  -- queue.
  pub accept_job-refused :
      (j : Job) (e e' : Executor) (x : Error)
      → accept_job sha1 j e ≡ (err x, e')
      → e'.pending_jobs ≡ e.pending_jobs
  unfolding accept_job
  accept_job-refused j e e' x h = ground arith

module _ (sha1 : Bytes → Str) (unpackb : Bytes → Result Unpacked) where
  pending_jobs-handle_data :
      (d : Option NamedData) (c : Bytes) (e : Executor)
      → (handle_data sha1 d c e).1.pending_jobs ≡ e.pending_jobs
  unfolding handle_data
  pending_jobs-handle_data none c e = refl
  pending_jobs-handle_data (some (one n)) c e = refl
  pending_jobs-handle_data (some (many ns)) c e = refl

  pending_jobs-handle_job :
      (b : BundleData) (e : Executor)
      → ((p : Bytes) (j : Job) → ¬ (unpackb p ≡ ok (job_object j)))
      → (handle_job sha1 unpackb b e).1.pending_jobs ≡ e.pending_jobs
  unfolding handle_job
  pending_jobs-handle_job b e never = go (unpackb b.payload) refl
    where
      go :
          (u : Result Unpacked)
          → unpackb b.payload ≡ u
          → (after (u, e) λ v e₁. after (as_job v, e₁) λ j. accept_job sha1 j).1.pending_jobs
            ≡ e.pending_jobs
      go (err x) h = refl
      go (ok (plain v)) h = refl
      go (ok (job_object j)) h = absurd (never b.payload j h)

  pending_jobs-handle_bundle :
      {W : Type 0} (send : Message → Exec W Message) (b : BundleData) (s : Executor × W)
      → ((p : Bytes) (j : Job) → ¬ (unpackb p ≡ ok (job_object j)))
      → (handle_bundle sha1 unpackb send b s).1.0.pending_jobs ≡ s.0.pending_jobs
  unfolding handle_bundle
  pending_jobs-handle_bundle send b s never = ground (
    arith,
    pending_jobs-handle_data b.named_data b.payload s.0,
    pending_jobs-handle_job b s.0 never,
  )

  -- Where msgpack never gives an object of class Job, as it does not, no round of bundles puts a
  -- job into the queue, whatever bundles come and whatever dtnd answers.
  pub pending_jobs-round :
      {W : Type 0} (send : Message → Exec W Message) (s : Executor × W)
      → ((p : Bytes) (j : Job) → ¬ (unpackb p ≡ ok (job_object j)))
      → (round sha1 unpackb send s).0.pending_jobs ≡ s.0.pending_jobs
  unfolding round
  pending_jobs-round send s never =
      bundle_round_inv send (λ e. e.pending_jobs ≡ s.0.pending_jobs) (λ e. e.node)
        (handle_bundle sha1 unpackb send) (λ b t h. pending_jobs-handle_bundle send b t never ∙ h) s
        refl

  -- A named-data bundle for a name that is already cached raises NameTakenError, and the bundles
  -- behind it in the same round are not handled.
  pub duplicate_data_ends_round :
      {W : Type 0} (send : Message → Exec W Message) (b : BundleData) (rest : List BundleData)
      (s : Executor × W) (n f : Str)
      → b.type ≡ 22
      → b.named_data ≡ some (one n)
      → find_name n s.0.storage.db ≡ some f
      → for_each (handle_bundle sha1 unpackb send) (b ∷ rest) s ≡ (err (name_taken n), s)
  unfolding for_each handle_bundle
  duplicate_data_ends_round send b rest s n f t e taken =
      rw (t, e, store_data_taken sha1 n f b.payload s.0.storage taken)
