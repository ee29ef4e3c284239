-- ===== src/Rest/ExecutorNode/Stored.antt =====
-- The result of a job is not lost while a datastore takes it.
use ma_sinafadavi_claude.Prelude.{
  ◌∙◌, ◌≡◌, ◌+◌, if◌then◌else◌, ℕ, zero, suc, refl, ap, Bool, true, false, arith, sym, Result,
  after, ok,
}
use ma_sinafadavi_claude.Rest.ExecutorNode.{
  tries, store_job_in_datastore, store_or_report, Delivery, tries_file, do_store_in_datastore,
}

module _ {W : Type 0} (attempt_it : W → Bool × W) (pause : W → W) where
  -- the world after failed attempts and their pauses
  unfoldable pub failed_times : ℕ → W → W
  failed_times zero w = w
  failed_times (suc k) w = failed_times k (pause (attempt_it w).1)

  abbrev pub AllFail : ℕ → W → Type 0
  AllFail zero w = Unit
  AllFail (suc k) w = ((attempt_it w).0 ≡ false) × AllFail k (pause (attempt_it w).1)

  succeeded :
      (r : Bool × W) (s : Bool × W) → r.0 ≡ true → (if r.0 then (true, r.1) else s) ≡ (true, r.1)
  succeeded (b, v) s h = rw h refl

  did_not : (r : Bool × W) (s : Bool × W) → r.0 ≡ false → (if r.0 then (true, r.1) else s) ≡ s
  did_not (b, v) s h = rw h refl

  tries-later :
      (k more : ℕ) (w : W)
      → AllFail k w
      → (attempt_it (failed_times k w)).0 ≡ true
      → tries (k + suc more) attempt_it pause w ≡ (true, (attempt_it (failed_times k w)).1)
  unfolding tries failed_times
  tries-later zero more w n h =
      let e : 0 + suc more ≡ suc more = omega arith in
      ap (λ times. tries times attempt_it pause w) e ∙ succeeded (attempt_it w) _ h
  tries-later (suc k) more w n h =
      let e : suc k + suc more ≡ suc (k + suc more) = omega arith in
      ap (λ times. tries times attempt_it pause w) e
      ∙ (did_not (attempt_it w) _ n.0 ∙ tries-later k more (pause (attempt_it w).1) n.1 h)

  tries-none :
      (k : ℕ) (w : W) → AllFail k w → tries k attempt_it pause w ≡ (false, failed_times k w)
  unfolding tries failed_times
  tries-none zero w n = refl
  tries-none (suc k) w n = did_not (attempt_it w) _ n.0 ∙ tries-none k (pause (attempt_it w).1) n.1

module _ {W : Type 0} (ops : Delivery W) where
  -- the named results are stored, as far as that works
  unfoldable pub after_named : W → W
  after_named w = (tries 10 ops.store_named (λ v. v) w).1

  -- the world when the result is to be stored: where there is a host, all ten sendings have failed
  unfoldable pub before_store : Bool → W → W
  unfolding after_named
  before_store false w = after_named w
  before_store true w = failed_times ops.send_result ops.pause 10 (after_named w)

  abbrev pub SendsFail : Bool → W → Type 0
  SendsFail false w = Unit
  SendsFail true w = AllFail ops.send_result ops.pause 10 (after_named w)

  answered_file :
      (r : Bool × W) (b : Bool) (v : W)
      → r ≡ (b, v)
      → after {0, 0, 0}
          (ok r.0, r.1)
          (λ c w'. (ok (tt {0}), if c then w' else (tries 10 ops.store_error ops.pause w').1))
        ≡ (ok tt, if b then v else (tries 10 ops.store_error ops.pause v).1)
  answered_file r b v e =
      ap (λ p. (ok (tt {0}), if p.0 then p.1 else (tries 10 ops.store_error ops.pause p.1).1)) e

  store_or_report-stored :
      (k more : ℕ) (w : W)
      → k + suc more ≡ 10
      → AllFail ops.store_result ops.pause k w
      → (ops.store_result (failed_times ops.store_result ops.pause k w)).0 ≡ true
      → store_or_report ops true w
        ≡ (ok tt, (ops.store_result (failed_times ops.store_result ops.pause k w)).1)
  unfolding store_or_report tries_file
  store_or_report-stored k more w e n h =
      answered_file (tries 10 ops.store_result ops.pause w) true
        (ops.store_result (failed_times ops.store_result ops.pause k w)).1
        (ap (λ times. tries times ops.store_result ops.pause w) (sym e)
          ∙ tries-later ops.store_result ops.pause k more w n h)

  unsent :
      (r : Bool × W) (v : W) (f : W → Result (Unit {0}) × W)
      → r ≡ (false, v)
      → after {0, 0, 0} (ok r.0, r.1) (λ b w2. if b then (ok tt, w2) else f w2) ≡ f v
  unsent r v f e = ap (λ (p : Bool × W). if p.0 then (ok tt, p.1) else f p.1) e

  do_store-before :
      (has_host : Bool) (w : W)
      → SendsFail has_host w
      → do_store_in_datastore ops has_host true w
        ≡ store_or_report ops true (before_store has_host w)
  unfolding do_store_in_datastore tries_file before_store
  do_store-before false w n = refl
  do_store-before true w n =
      unsent (tries 10 ops.send_result ops.pause (after_named w))
        (failed_times ops.send_result ops.pause 10 (after_named w)) (store_or_report ops true)
        (tries-none ops.send_result ops.pause 10 (after_named w) n)

  -- Let the file of the result be readable, and either no host be named for the result or all ten
  -- attempts to send it there fail; and let a datastore take the result at one of ten attempts. Then
  -- after the named results and the failed attempts the result is stored once, the job is reported as
  -- done, and after that deleted if `delete` is set; and nothing else is done.
  pub store_job_in_datastore-stored :
      (has_host delete : Bool) (k more : ℕ) (w : W)
      → k + suc more ≡ 10
      → SendsFail has_host w
      → AllFail ops.store_result ops.pause k (before_store has_host w)
      → (ops.store_result (failed_times ops.store_result ops.pause k (before_store has_host w))).0
        ≡ true
      → store_job_in_datastore ops has_host true delete w ≡ (
        ok tt,
        if delete
            then ops.delete_job (
                ops.job_done
                  (ops.store_result
                    (failed_times ops.store_result ops.pause k (before_store has_host w))).1)
            else ops.job_done
                (ops.store_result
                  (failed_times ops.store_result ops.pause k (before_store has_host w))).1,
      )
  unfolding store_job_in_datastore
  store_job_in_datastore-stored has_host delete k more w e s n h =
      ap
        (λ r. after {0, 0, 0} r (λ _ w'.
          (ok (tt {0}), if delete then ops.delete_job (ops.job_done w') else ops.job_done w')))
        (do_store-before has_host w s
          ∙ store_or_report-stored k more (before_store has_host w) e n h)
