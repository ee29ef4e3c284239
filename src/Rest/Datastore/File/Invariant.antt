-- ===== src/Rest/Datastore/File/Invariant.antt =====
-- The invariant of a file whose uploads and deletions interleave.
use ma_sinafadavi_claude.Rest.Datastore.File.{
  File, FileStatus, created, error, interrupted, Phase, entered, opening, testing, holding, ending,
  new_file,
}
use ma_sinafadavi_claude.Prelude.{
  Bytes, ◌∙◌, ◌≡◌, ◌++◌, ◌∷◌, ◌+◌, ◌≤◌, ◌⊎◌, ℕ, ap, Option, none, some, List, [], arith, length,
}

-- the bytes of an upload
unfoldable pub whole : List Bytes → Bytes
whole [] = []
whole (c ∷ cs) = c ++ whole cs

-- one more call is counted while the holder has not taken its own back
unfoldable pub uncounted : Option (List Bytes × Phase) → ℕ
uncounted none = 0
uncounted (some (u, entered)) = 1
uncounted (some (u, p)) = 0

-- what is written, together with what is still to be written, is the upload
abbrev pub Writes : Option Bytes → Bytes → List Bytes → Type 0
Writes content rest u = (b : Bytes) × ((content ≡ some b) × (b ++ rest ≡ whole u))

abbrev pub InPhase : Option (List Bytes × Phase) → Option Bytes → ℕ → Type 0
InPhase none content n = Unit
InPhase (some (u, entered)) content n = Unit
InPhase (some (u, opening)) content n = Unit
InPhase (some (u, testing rest)) content n = Writes content (whole rest) u
InPhase (some (u, holding c rest)) content n = Writes content (c ++ whole rest) u
InPhase (some (u, ending rest)) content n = Writes content (whole rest) u × ((rest ≡ []) ⊎ (1 ≤ n))

abbrev pub Settled :
    Option (List Bytes × Phase) → Option (List Bytes × FileStatus) → Option Bytes → Type 0
Settled none (some (u, created)) content = content ≡ some (whole u)
Settled none (some (u, interrupted)) content = Unit
Settled none (some (u, error)) content = Unit
Settled none none content = Unit
Settled (some p) last content = Unit

pub record IsSound (f : File) : Type 0 where
  pub counted : f.interrupt ≡ length f.waiting + uncounted f.holder
  pub in_phase : InPhase f.holder f.content f.interrupt
  pub settled : Settled f.holder f.last f.content

pub new_file-IsSound : (content : Option Bytes) → IsSound (new_file content)
unfolding new_file uncounted
new_file-IsSound content = record { counted = omega arith; in_phase = tt; settled = tt }

pub counted_at :
    (f : File) (o : Option (List Bytes × Phase))
    → f.holder ≡ o
    → IsSound f
    → f.interrupt ≡ length f.waiting + uncounted o
counted_at f o e h = h.counted ∙ ap (λ o. length f.waiting + uncounted o) e

pub phase_at :
    (f : File) (o : Option (List Bytes × Phase))
    → f.holder ≡ o
    → IsSound f
    → InPhase o f.content f.interrupt
phase_at f o e h = rw (← e) h.in_phase
