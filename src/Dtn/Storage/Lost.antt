-- ===== src/Dtn/Storage/Lost.antt =====
-- What happens to a name whose blob has disappeared.
use ma_sinafadavi_claude.Prelude.{
  is_some, false, List, [], ◌∷◌, Option, none, some, ◌≡◌, refl, arith, not, Str, Bytes, str_eq,
  lookup, keep, member, ok, err, name_taken, no_such_name,
}
use ma_sinafadavi_claude.Dtn.Storage.{
  Entry, Storage, search_name, read_entries, load_data, find_missing, cleanup, store_data,
  copy_to_file, search_prefix,
}
use ma_sinafadavi_claude.Dtn.Storage.Unique.{find_name}
use ma_sinafadavi_claude.Dtn.Storage.Views.{view, store_data_taken}
use ma_sinafadavi_claude.Dtn.Storage.Loads.{member-find_missing}

-- Entries of a name that is not entered cannot be dropped.
keep-absent :
    (m : Str) (es : List Entry) → find_name m es ≡ none → keep (λ e. not (str_eq e.name m)) es ≡ es
unfolding keep find_name
keep-absent m [] h = refl
keep-absent m (e ∷ es) h = ground (arith, keep-absent m es)

-- every one of the names fails to be entered
abbrev AreAbsent : List Str → List Entry → Type 0
AreAbsent [] es = Unit
AreAbsent (m ∷ ms) es = (find_name m es ≡ none) × AreAbsent ms es

cleanup-absent : (ms : List Str) (s : Storage) → AreAbsent ms s.db → cleanup ms s ≡ s
unfolding cleanup
cleanup-absent [] s a = refl
cleanup-absent (m ∷ ms) s a = rw (keep-absent m s.db a.0) (cleanup-absent ms s a.1)

-- No entry's file name is entered as a name, as with file names that are hashes.
abbrev pub AreNotNames : List Entry → List Entry → Type 0
AreNotNames [] db = Unit
AreNotNames (e ∷ es) db = (find_name e.filename db ≡ none) × AreNotNames es db

gone-AreAbsent :
    (p : Str) (blobs : List (Str × Bytes)) (db es : List Entry)
    → AreNotNames es db
    → AreAbsent (read_entries blobs (search_prefix p es)).1 db
unfolding read_entries search_prefix keep
gone-AreAbsent p blobs db [] h = tt
gone-AreAbsent p blobs db (e ∷ es) h = ground (arith, h.0, gone-AreAbsent p blobs db es h.1)

-- The clean-up of load_data drops nothing where no file name is also a name, whatever blobs are
-- missing.
load_data_unclean : (p : Str) (s : Storage) → AreNotNames s.db s.db → (load_data p s).1 ≡ s
unfolding load_data
load_data_unclean p s h = cleanup-absent _ s (gone-AreAbsent p s.blobs s.db s.db h)

first_filename : List Entry → Option Str
first_filename [] = none
first_filename (e ∷ es) = some e.filename

first_filename-search_name :
    (n : Str) (es : List Entry) → first_filename (search_name n es) ≡ find_name n es
unfolding first_filename search_name find_name keep
first_filename-search_name n [] = refl
first_filename-search_name n (e ∷ es) = ground (arith, first_filename-search_name n es)

-- Copying writes the content that the name stands for to the destination, and raises
-- NoSuchNameError when the name stands for none.
pub copy_to_file-view {ℓ} :
    {F : Type ℓ} (n : Str) (write : Bytes → F) (s : Storage)
    → (copy_to_file n write s).0
      ≡ elim (view s n) [ some c ↦ ok (write c) | none ↦ err (no_such_name n) ]
unfolding copy_to_file first_filename view
copy_to_file-view n write s = ground (arith, first_filename-search_name n s.db)

-- A name whose blob has disappeared stays taken, where no file name is also a name: loading it
-- changes nothing, storing it is refused, and find_missing does not report it.
pub lost_name_stays_taken :
    (sha1 : Bytes → Str) (n f : Str) (c : Bytes) (s : Storage)
    → AreNotNames s.db s.db
    → find_name n s.db ≡ some f
    → lookup f s.blobs ≡ none
    → (view s n ≡ none)
      × ((load_data n s).1 ≡ s)
      × (store_data sha1 n c s ≡ (err (name_taken n), s))
      × (member n (find_missing (n ∷ []) s) ≡ false)
unfolding view
lost_name_stays_taken sha1 n f c s h entered lost = (
  ground arith,
  load_data_unclean n s h,
  store_data_taken sha1 n f c s entered,
  unfold is_some in ground (arith, member-find_missing n (n ∷ []) s),
)
