-- ===== src/Rest/Datastore/File/Sound.antt =====
-- What holds of a file however its uploads and deletions are interleaved.
use ma_sinafadavi_claude.Rest.Datastore.File.Kept.{
  fail-IsSound, open_file-IsSound, finish-IsSound, write-IsSound, delete_file-IsSound, test-IsSound,
  enter-IsSound, arrive-IsSound, count_down-IsSound,
}
use ma_sinafadavi_claude.Rest.Datastore.File.{
  File, FileStatus, created, error, interrupted, Phase, new_file, Step, Steps, arrives, enters,
  counts_down, opens, tests, writes, finishes, fails, deletes, stay, then_step,
}
use ma_sinafadavi_claude.Prelude.{Bytes, ◌∙◌, ◌≡◌, ap, Option, none, some, List, arith}
use ma_sinafadavi_claude.Rest.Datastore.File.Invariant.{whole, new_file-IsSound, IsSound, Settled}

pub Step-IsSound : (f g : File) → Step f g → IsSound f → IsSound g
Step-IsSound _ _ (arrives u f) h = arrive-IsSound u f h
Step-IsSound _ _ (enters u before later f e w) h = enter-IsSound u before later f e w h
Step-IsSound _ _ (counts_down u f e) h = count_down-IsSound u f e h
Step-IsSound _ _ (opens u f e) h = open_file-IsSound u f e h
Step-IsSound _ _ (tests u rest f e) h = test-IsSound u rest f e h
Step-IsSound _ _ (writes u c rest f e) h = write-IsSound u c rest f e h
Step-IsSound _ _ (finishes u rest f e) h = finish-IsSound u rest f e h
Step-IsSound _ _ (fails u p content f e m) h = fail-IsSound u p content f e m h
Step-IsSound _ _ (deletes removed f e) h = delete_file-IsSound removed f e h

pub Steps-IsSound : (f g : File) → Steps f g → IsSound f → IsSound g
Steps-IsSound _ _ (stay f) h = h
Steps-IsSound _ _ (then_step f g k s t) h = Step-IsSound g k t (Steps-IsSound f g s h)

created-Settled :
    (o : Option (List Bytes × Phase)) (last : Option (List Bytes × FileStatus))
    (content : Option Bytes) (u : List Bytes)
    → o ≡ none
    → last ≡ some (u, created)
    → Settled o last content
    → content ≡ some (whole u)
created-Settled (some p) last content u e l h = absurd (ground arith)
created-Settled none none content u e l h = absurd (ground arith)
created-Settled none (some (v, created)) content u e l h =
    h ∙ ap (λ w. some (whole w)) (ground arith)
created-Settled none (some (v, error)) content u e l h = absurd (ground arith)
created-Settled none (some (v, interrupted)) content u e l h = absurd (ground arith)

-- However uploads and deletions of a file are interleaved: if the holder before answered that the
-- upload is created, and the lock is free, then the file holds exactly the bytes of that upload.
pub created_is_whole :
    (old : Option Bytes) (f : File) (u : List Bytes)
    → Steps (new_file old) f
    → f.holder ≡ none
    → f.last ≡ some (u, created)
    → f.content ≡ some (whole u)
created_is_whole old f u s e l =
    created-Settled f.holder f.last f.content u e l
      (Steps-IsSound (new_file old) f s (new_file-IsSound old)).settled
