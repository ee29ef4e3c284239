-- ===== src/Rest/Datastore/File/Complete.antt =====
-- Uploads of a file come to an end, and the one that came last is stored.
use ma_sinafadavi_claude.Rest.Datastore.File.Invariant.{
  whole, uncounted, new_file-IsSound, counted_at,
}
use ma_sinafadavi_claude.Rest.Datastore.File.Sound.{Steps-IsSound}
use ma_sinafadavi_claude.Prelude.{
  Bytes, ◌≡◌, ◌++◌, ◌∷◌, refl, none, some, List, [], arith, ℕ, suc, append_assoc, append-nil, ◌∙◌,
  ap, Option, length, length-append,
}
use ma_sinafadavi_claude.Rest.Datastore.File.{
  File, created, interrupted, opening, testing, holding, new_file, enter, leave, count_down,
  open_file, test, write, finish, Step, Steps, enters, counts_down, opens, tests, writes, finishes,
  stay, then_step,
}

both_runs : (f g h : File) → Steps f g → Steps g h → Steps f h
both_runs f g _ s (stay _) = s
both_runs f g _ s (then_step _ k h t u) = then_step f k h (both_runs f g k s t) u

run_from : (f g h : File) → Step f g → Steps g h → Steps f h
run_from f g h s t = both_runs f g h (then_step f f g (stay f) s) t

-- what holds of a file while an upload writes it alone
pub record Writing (u rest : List Bytes) (b : Bytes) (f : File) : Type 0 where
  pub by : f.holder ≡ some (u, testing rest)
  pub quiet : f.interrupt ≡ 0
  pub none_wait : f.waiting ≡ []
  pub so_far : f.content ≡ some b

pub record Written (u : List Bytes) (b : Bytes) (f : File) : Type 0 where
  pub done_by : f.last ≡ some (u, created)
  pub free : f.holder ≡ none
  pub none_left : f.waiting ≡ []
  pub all_there : f.content ≡ some b

test-first :
    (u : List Bytes) (c : Bytes) (rest : List Bytes) (f : File)
    → f.interrupt ≡ 0
    → test u (c ∷ rest) f ≡ record f { holder = some (u, holding c rest) }
unfolding test
test-first u c rest f e = ground (arith, e)

write-Writing :
    (u : List Bytes) (c : Bytes) (rest : List Bytes) (b : Bytes) (f : File)
    → f.interrupt ≡ 0
    → f.waiting ≡ []
    → f.content ≡ some b
    → Writing u rest (b ++ c) (write u c rest f)
unfolding write
write-Writing u c rest b f i w e =
    rw e (record { by = refl; quiet = i; none_wait = w; so_far = refl })

finish_quiet : (u : List Bytes) (f : File) → f.interrupt ≡ 0 → finish u f ≡ leave u created f
unfolding finish
finish_quiet u f e = ground (arith, e)

finish-Written :
    (u : List Bytes) (b : Bytes) (f : File)
    → f.interrupt ≡ 0
    → f.waiting ≡ []
    → f.content ≡ some b
    → Written u b (finish u f)
finish-Written u b f i w e =
    rw (finish_quiet u f i)
      (unfold leave in record { done_by = refl; free = refl; none_left = w; all_there = e })

write_out :
    (u rest : List Bytes) (b : Bytes) (f : File)
    → Writing u rest b f
    → (g : File) × (Steps f g × Written u (b ++ whole rest) g)
unfolding whole
write_out u [] b f h =
    let t = test u [] f in
    (
      finish u t,
      (
        run_from f t (finish u t) (tests u [] f h.by) (
            run_from t (finish u t) (finish u t) (finishes u [] t (unfold test in refl))
              (stay (finish u t))),
        rw append-nil (
            finish-Written u b t (unfold test in h.quiet) (unfold test in h.none_wait)
              (unfold test in h.so_far)),
      ),
    )
write_out u (c ∷ rest) b f h =
    let t = record f { holder = some (u, holding c rest) } in
    let w = write u c rest t in
    let (g, (s, d)) =
      write_out u rest (b ++ c) w (write-Writing u c rest b t h.quiet h.none_wait h.so_far) in
    (
      g,
      (
        run_from f t g (rw (← test-first u c rest f h.quiet) (tests u (c ∷ rest) f h.by))
            (run_from t w g (writes u c rest t refl) s),
        rw (← append_assoc b c (whole rest)) d,
      ),
    )

-- the file after the counter is taken back, by whether others wait
count_down-last :
    (u : List Bytes) (f : File)
    → f.interrupt ≡ 1
    → count_down u f ≡ record f { interrupt = 0; holder = some (u, opening) }
unfolding count_down
count_down-last u f e = ground (arith, e)

count_down-more :
    (u : List Bytes) (n : ℕ) (f : File)
    → f.interrupt ≡ suc (suc n)
    → count_down u f ≡ leave u interrupted (record f { interrupt = suc n })
unfolding count_down leave
count_down-more u n f e = ground (arith, e)

opened_Writing :
    (u : List Bytes) (f : File) → f.interrupt ≡ 0 → f.waiting ≡ [] → Writing u u [] (open_file u f)
unfolding open_file
opened_Writing u f n w = record { by = refl; quiet = n; none_wait = w; so_far = refl }

-- one upload, alone, from the free lock to its end
store_alone :
    (u : List Bytes) (f : File)
    → f.holder ≡ none
    → f.interrupt ≡ 1
    → f.waiting ≡ u ∷ []
    → (g : File) × (Steps f g × Written u (whole u) g)
store_alone u f e n w =
    let f1 = enter u [] f in
    let f2 = count_down u f1 in
    let f3 = open_file u f2 in
    let h : f2 ≡ record f1 { interrupt = 0; holder = some (u, opening) } =
      count_down-last u f1 (unfold enter in n) in
    let (g, (s, d)) = write_out u u [] f3 (
      opened_Writing u f2 (ap (λ t. t.interrupt) h)
        (ap (λ t. t.waiting) h ∙ (unfold enter in refl))) in
    (
      g,
      (
        run_from f f1 g (enters u [] [] f e w) (
            run_from f1 f2 g (counts_down u f1 (unfold enter in refl))
              (run_from f2 f3 g (opens u f2 (ap (λ t. t.holder) h)) s)),
        d,
      ),
    )

store_last :
    (before : List (List Bytes)) (u : List Bytes) (f : File)
    → f.holder ≡ none
    → f.interrupt ≡ length f.waiting
    → f.waiting ≡ before ++ u ∷ []
    → (g : File) × (Steps f g × Written u (whole u) g)
store_last [] u f e n w = store_alone u f e (n ∙ ap length w) w
store_last (x ∷ before) u f e n w =
    let others = before ++ u ∷ [] in
    let f1 = enter x others f in
    let f2 = count_down x f1 in
    let k = n ∙ (ap length w ∙ ap suc (length-append before (u ∷ []))) in
    let h : f2 ≡ leave x interrupted (record f1 { interrupt = suc (length before) }) =
      count_down-more x (length before) f1 (unfold enter in omega (arith, k)) in
    let v = waits x others f (length before) h in
    let m : f2.interrupt ≡ suc (length before) = ap (λ t. t.interrupt) h ∙ (unfold leave in refl) in
    let (g, (s, d)) =
      store_last before u f2 (ap (λ t. t.holder) h ∙ (unfold leave in refl))
        (omega (arith, m, ap length v, length-append before (u ∷ []))) v in
    (
      g,
      (
        run_from f f1 g (enters x [] others f e w)
            (run_from f1 f2 g (counts_down x f1 (unfold enter in refl)) s),
        d,
      ),
    )
  where
    waits :
        (x : List Bytes) (others : List (List Bytes)) (f : File) (n : ℕ)
        → count_down x (enter x others f)
          ≡ leave x interrupted (record (enter x others f) { interrupt = suc n })
        → (count_down x (enter x others f)).waiting ≡ others
    waits x others f n h = ap (λ t. t.waiting) h ∙ (unfold leave enter in refl)

-- Whatever has happened to a file before, if its lock is free and calls of store wait for it, then
-- they can run one after the other, without an error of the operating system, until the lock is free
-- and none waits: the last one answers that its upload is created, and the file holds exactly its
-- bytes.
pub last_upload_wins :
    (old : Option Bytes) (before : List (List Bytes)) (u : List Bytes) (f : File)
    → Steps (new_file old) f
    → f.holder ≡ none
    → f.waiting ≡ before ++ u ∷ []
    → (g : File) × (Steps f g × Written u (whole u) g)
last_upload_wins old before u f s e w =
    store_last before u f e
      (unfold uncounted in
        omega
          (arith, counted_at f none e (Steps-IsSound (new_file old) f s (new_file-IsSound old))))
      w
