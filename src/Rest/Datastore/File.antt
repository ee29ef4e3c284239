-- ===== src/Rest/Datastore/File.antt =====
-- class File of rec/rest/nodes/datastore.py, with its calls of store and delete interleaved: each
-- function is what one thread does between two points where others may come in. An upload is the
-- list of the chunks that `file.read(65536)` gives. The write lock has one holder; `waiting` are the
-- calls of store that have counted themselves and wait for it. `last` is what the holder before
-- answered; the code does not keep it.
pub mod Invariant
pub mod Kept
pub mod Sound
pub mod Complete
use ma_sinafadavi_claude.Prelude.{
  Bytes, ◌≡◌, ◌++◌, ◌∷◌, ◌+◌, ◌-◌, ◌==◌, if◌then◌else◌, ℕ, Bool, true, false, Option, none, some,
  List, [],
}

pub data FileStatus : Type 0 where
  created error interrupted : FileStatus

-- where the holder of the lock stands: the lock taken, the counter taken back, a chunk read and to be
-- tested, a chunk to be written, and the loop left with what was not written
pub data Phase : Type 0 where
  entered opening : Phase
  testing : List Bytes → Phase
  holding : Bytes → List Bytes → Phase
  ending : List Bytes → Phase

pub record File : Type 0 where
  pub interrupt : ℕ
  pub deleted : Bool
  pub content : Option Bytes
  pub waiting : List (List Bytes)
  pub holder : Option (List Bytes × Phase)
  pub last : Option (List Bytes × FileStatus)

-- def __init__, over what lies at the path
unfoldable pub new_file : Option Bytes → File
new_file content = record {
  interrupt = 0;
  deleted = false;
  content = content;
  waiting = [];
  holder = none;
  last = none;
}

-- self.interrupt += 1
unfoldable pub arrive : List Bytes → File → File
arrive u f = record f { interrupt = f.interrupt + 1; waiting = f.waiting ++ u ∷ [] }

-- the lock is taken; the others go on waiting
unfoldable pub enter : List Bytes → List (List Bytes) → File → File
enter u others f = record f { waiting = others; holder = some (u, entered); deleted = false }

-- the lock is given back with an answer
unfoldable pub leave : List Bytes → FileStatus → File → File
leave u status f = record f { holder = none; last = some (u, status) }

-- self.interrupt -= 1, and INTERRUPTED if others wait
unfoldable pub count_down : List Bytes → File → File
unfolding leave
count_down u f =
    let n = f.interrupt - 1 in
    let f' = record f { interrupt = n } in
    if n == 0 then record f' { holder = some (u, opening) } else leave u interrupted f'

-- open(self.path, "bw"), and the first chunk
unfoldable pub open_file : List Bytes → File → File
open_file u f = record f { content = some []; holder = some (u, testing u) }

-- the condition of the loop
unfoldable pub test : List Bytes → List Bytes → File → File
test u [] f = record f { holder = some (u, ending []) }
test u (c ∷ rest) f = record f {
  holder = some (u, if f.interrupt == 0 then holding c rest else ending (c ∷ rest));
}

-- o_file.write(data), and the next chunk
unfoldable pub write : List Bytes → Bytes → List Bytes → File → File
write u c rest f = elim f.content [
  | none ↦ record f { holder = some (u, testing rest) }
  | some b ↦ record f { content = some (b ++ c); holder = some (u, testing rest) }
]

-- after the loop
unfoldable pub finish : List Bytes → File → File
unfolding leave
finish u f = if f.interrupt == 0 then leave u created f else leave u interrupted f

-- except OSError: what is at the path then is anything, or nothing
unfoldable pub fail : List Bytes → Option Bytes → File → File
unfolding leave
fail u content f = leave u error (record f { content = content })

-- where the block of the except clause runs
unfoldable pub may_fail : Phase → Bool
may_fail entered = false
may_fail opening = true
may_fail (testing rest) = true
may_fail (holding c rest) = true
may_fail (ending rest) = false

-- def delete
unfoldable pub delete_file : Bool → File → Bool × File
delete_file removed f =
    if removed then (true, record f { content = none; deleted = true; last = none }) else (false, f)

pub data Step : File → File → Type 0 where
  arrives : (u : List Bytes) (f : File) → Step f (arrive u f)
  enters :
      (u : List Bytes) (before later : List (List Bytes)) (f : File)
      → f.holder ≡ none
      → f.waiting ≡ before ++ u ∷ later
      → Step f (enter u (before ++ later) f)
  counts_down : (u : List Bytes) (f : File) → f.holder ≡ some (u, entered) → Step f (count_down u f)
  opens : (u : List Bytes) (f : File) → f.holder ≡ some (u, opening) → Step f (open_file u f)
  tests :
      (u rest : List Bytes) (f : File) → f.holder ≡ some (u, testing rest) → Step f (test u rest f)
  writes :
      (u : List Bytes) (c : Bytes) (rest : List Bytes) (f : File)
      → f.holder ≡ some (u, holding c rest)
      → Step f (write u c rest f)
  finishes :
      (u rest : List Bytes) (f : File) → f.holder ≡ some (u, ending rest) → Step f (finish u f)
  fails :
      (u : List Bytes) (p : Phase) (content : Option Bytes) (f : File)
      → f.holder ≡ some (u, p)
      → may_fail p ≡ true
      → Step f (fail u content f)
  deletes : (removed : Bool) (f : File) → f.holder ≡ none → Step f (delete_file removed f).1

pub data Steps : File → File → Type 0 where
  stay : (f : File) → Steps f f
  then_step : (f g h : File) → Steps f g → Step g h → Steps f h
