-- ===== src/Rest/Datastore/File/Kept.antt =====
-- Every step of an upload, and a deletion, keep the invariant of the file.
use ma_sinafadavi_claude.Rest.Datastore.File.{
  File, created, interrupted, Phase, entered, opening, testing, holding, ending, arrive, enter,
  leave, count_down, open_file, test, write, finish, fail, may_fail, delete_file,
}
use ma_sinafadavi_claude.Prelude.{
  Bytes, ◌∙◌, ◌≡◌, ◌++◌, ◌∷◌, ◌+◌, ◌-◌, ◌==◌, ◌≤◌, ◌⊎◌, if◌then◌else◌, ℕ, refl, sym, ap, inl, inr,
  Bool, true, false, Option, none, some, List, [], append_assoc, append-nil, arith, length-append,
  length,
}
use ma_sinafadavi_claude.Rest.Datastore.File.Invariant.{
  whole, uncounted, InPhase, phase_at, counted_at, IsSound, Writes,
}

pub InPhase-suc :
    (h : Option (List Bytes × Phase)) (content : Option Bytes) (n : ℕ)
    → InPhase h content n
    → InPhase h content (n + 1)
InPhase-suc none content n k = tt
InPhase-suc (some (u, entered)) content n k = tt
InPhase-suc (some (u, opening)) content n k = tt
InPhase-suc (some (u, testing rest)) content n k = k
InPhase-suc (some (u, holding c rest)) content n k = k
InPhase-suc (some (u, ending rest)) content n k =
    (k.0, elim k.1 [ inl e ↦ inl e | inr l ↦ inr (omega arith) ])

pub arrive-IsSound : (u : List Bytes) (f : File) → IsSound f → IsSound (arrive u f)
unfolding arrive
arrive-IsSound u f h = record {
  counted = omega (arith, h.counted, length-append f.waiting (u ∷ []));
  in_phase = InPhase-suc f.holder f.content f.interrupt h.in_phase;
  settled = h.settled;
}

pub enter-IsSound :
    (u : List Bytes) (before later : List (List Bytes)) (f : File)
    → f.holder ≡ none
    → f.waiting ≡ before ++ u ∷ later
    → IsSound f
    → IsSound (enter u (before ++ later) f)
unfolding enter uncounted
enter-IsSound u before later f e w h =
    let n = counted_at f none e h in
    let l = ap length w in
    record {
      counted = omega (arith, n, l, length-append before (u ∷ later), length-append before later);
      in_phase = tt;
      settled = tt;
    }

-- the counter taken back, by whether it is then zero
pub count_down_at :
    (u : List Bytes) (f : File) (b : Bool)
    → (f.interrupt - 1 == 0) ≡ b
    → f.interrupt ≡ length f.waiting + 1
    → IsSound (
        if b
        then record f { interrupt = f.interrupt - 1; holder = some (u, opening) }
        else leave u interrupted (record f { interrupt = f.interrupt - 1 }))
unfolding uncounted leave
count_down_at u f true b h = record { counted = omega (arith, h); in_phase = tt; settled = tt }
count_down_at u f false b h = record { counted = omega (arith, h); in_phase = tt; settled = tt }

pub count_down-IsSound :
    (u : List Bytes) (f : File)
    → f.holder ≡ some (u, entered)
    → IsSound f
    → IsSound (count_down u f)
unfolding count_down uncounted
count_down-IsSound u f e h =
    count_down_at u f (f.interrupt - 1 == 0) refl (counted_at f (some (u, entered)) e h)

pub open_file-IsSound :
    (u : List Bytes) (f : File) → f.holder ≡ some (u, opening) → IsSound f → IsSound (open_file u f)
unfolding open_file uncounted
open_file-IsSound u f e h = record {
  counted = counted_at f (some (u, opening)) e h;
  in_phase = ([], (refl, refl));
  settled = tt;
}

-- the test of the loop, by whether others wait
pub test_at :
    (u : List Bytes) (c : Bytes) (rest : List Bytes) (f : File) (b : Bool)
    → (f.interrupt == 0) ≡ b
    → f.interrupt ≡ length f.waiting + 0
    → Writes f.content (whole (c ∷ rest)) u
    → IsSound (record f { holder = some (u, if b then holding c rest else ending (c ∷ rest)) })
unfolding uncounted whole
test_at u c rest f true e n w = record { counted = n; in_phase = w; settled = tt }
test_at u c rest f false e n w = record {
  counted = n;
  in_phase = (w, inr (ground (arith, e)));
  settled = tt;
}

pub test-IsSound :
    (u rest : List Bytes) (f : File)
    → f.holder ≡ some (u, testing rest)
    → IsSound f
    → IsSound (test u rest f)
unfolding test uncounted
test-IsSound u [] f e h = record {
  counted = counted_at f (some (u, testing [])) e h;
  in_phase = (phase_at f (some (u, testing [])) e h, inl refl);
  settled = tt;
}
test-IsSound u (c ∷ rest) f e h =
    test_at u c rest f (f.interrupt == 0) refl (counted_at f (some (u, testing (c ∷ rest))) e h)
      (phase_at f (some (u, testing (c ∷ rest))) e h)

pub write_at :
    (u : List Bytes) (c : Bytes) (rest : List Bytes) (f : File)
    → f.interrupt ≡ length f.waiting + 0
    → (b : Bytes) → f.content ≡ some b
    → b ++ (c ++ whole rest) ≡ whole u
    → IsSound (write u c rest f)
unfolding write uncounted
write_at u c rest f n b e w = rw e (record {
  counted = n;
  in_phase = (b ++ c, (refl, append_assoc b c (whole rest) ∙ w));
  settled = tt;
})

pub write-IsSound :
    (u : List Bytes) (c : Bytes) (rest : List Bytes) (f : File)
    → f.holder ≡ some (u, holding c rest)
    → IsSound f
    → IsSound (write u c rest f)
unfolding uncounted
write-IsSound u c rest f e h =
    let (b, (k, w)) = phase_at f (some (u, holding c rest)) e h in
    write_at u c rest f (counted_at f (some (u, holding c rest)) e h) b k w

pub finish_at :
    (u rest : List Bytes) (f : File) (b : Bool)
    → (f.interrupt == 0) ≡ b
    → f.interrupt ≡ length f.waiting + 0
    → Writes f.content (whole rest) u
    → ((rest ≡ []) ⊎ (1 ≤ f.interrupt))
    → IsSound (if b then leave u created f else leave u interrupted f)
unfolding uncounted leave whole
finish_at u rest f true e n (b, (k, w)) (inl r) = record {
  counted = n;
  in_phase = tt;
  settled = k ∙ ap some (sym (append-nil b) ∙ (ap (λ r. b ++ whole r) (sym r) ∙ w));
}
finish_at u rest f true e n w (inr l) = absurd (ground (arith, e, l))
finish_at u rest f false e n w l = record { counted = n; in_phase = tt; settled = tt }

pub finish-IsSound :
    (u rest : List Bytes) (f : File)
    → f.holder ≡ some (u, ending rest)
    → IsSound f
    → IsSound (finish u f)
unfolding finish uncounted
finish-IsSound u rest f e h =
    let (w, l) = phase_at f (some (u, ending rest)) e h in
    finish_at u rest f (f.interrupt == 0) refl (counted_at f (some (u, ending rest)) e h) w l

pub uncounted-may_fail :
    (u : List Bytes) (p : Phase) → may_fail p ≡ true → uncounted (some (u, p)) ≡ 0
unfolding uncounted may_fail
uncounted-may_fail u entered h = absurd (ground arith)
uncounted-may_fail u opening h = refl
uncounted-may_fail u (testing rest) h = refl
uncounted-may_fail u (holding c rest) h = refl
uncounted-may_fail u (ending rest) h = refl

pub fail-IsSound :
    (u : List Bytes) (p : Phase) (content : Option Bytes) (f : File)
    → f.holder ≡ some (u, p)
    → may_fail p ≡ true
    → IsSound f
    → IsSound (fail u content f)
unfolding fail leave uncounted
fail-IsSound u p content f e m h = record {
  counted = omega (arith, counted_at f (some (u, p)) e h, uncounted-may_fail u p m);
  in_phase = tt;
  settled = tt;
}

pub delete_file-IsSound :
    (removed : Bool) (f : File) → f.holder ≡ none → IsSound f → IsSound (delete_file removed f).1
unfolding delete_file uncounted
delete_file-IsSound false f e h = h
delete_file-IsSound true f e h = record {
  counted = h.counted;
  in_phase = rw e tt;
  settled = rw e tt;
}
