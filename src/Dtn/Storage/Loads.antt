-- ===== src/Dtn/Storage/Loads.antt =====
-- What load_data and find_missing answer.
use ma_sinafadavi_claude.Prelude.{
  List, [], ◌∷◌, Option, none, some, if◌then◌else◌, ◌≡◌, refl, arith, ◌&&◌, not, is_some, Str,
  Bytes, str_eq_iff, str_eq_self, starts_with, lookup, keep, is_empty, member, member-keep,
}
use ma_sinafadavi_claude.Dtn.Storage.{
  Entry, Storage, search_name, search_prefix, read_entries, load_data, find_missing, cleanup,
}
use ma_sinafadavi_claude.Dtn.Storage.Unique.{find_name, AreUnique, search_name-find_name}
use ma_sinafadavi_claude.Dtn.Storage.Views.{view, IsIntact}

-- the content that a name stands for in a list of entries
content_at : List (Str × Bytes) → Option Str → Option Bytes
content_at blobs none = none
content_at blobs (some f) = lookup f blobs

-- with unique names, a name's first entry is its only one
lookup-absent :
    (p n : Str) (blobs : List (Str × Bytes)) (es : List Entry)
    → find_name n es ≡ none
    → lookup n (read_entries blobs (search_prefix p es)).0 ≡ none
unfolding read_entries search_prefix find_name lookup keep
lookup-absent p n blobs [] h = refl
lookup-absent p n blobs (e ∷ es) h = ground (arith, lookup-absent p n blobs es)

lookup-read_entries :
    (p n : Str) (blobs : List (Str × Bytes)) (es : List Entry)
    → AreUnique es
    → lookup n (read_entries blobs (search_prefix p es)).0
      ≡ (if starts_with n p then content_at blobs (find_name n es) else none)
unfolding read_entries search_prefix find_name keep content_at lookup
lookup-read_entries p n blobs [] u = ground arith
lookup-read_entries p n blobs (e ∷ es) u =
    ground
      (arith, str_eq_iff e.name n, lookup-read_entries p n blobs es u.1, lookup-absent p n blobs es)

-- A name's first entry is its only one, so the rest of the list has no other.
find_name-tail :
    (n f : Str) (e : Entry) (es : List Entry)
    → find_name e.name es ≡ none
    → find_name n es ≡ some f
    → find_name n (e ∷ es) ≡ some f
unfolding find_name
find_name-tail n f e es h k = ground (arith, str_eq_iff e.name n)

gone-read_entries :
    (p : Str) (s : Storage) (es : List Entry)
    → ((n f : Str) → find_name n es ≡ some f → (c : Bytes) × (lookup f s.blobs ≡ some c))
    → AreUnique es
    → (read_entries s.blobs (search_prefix p es)).1 ≡ []
unfolding read_entries search_prefix keep
gone-read_entries p s [] whole u = refl
gone-read_entries p s (e ∷ es) whole u =
    let (c, held) = whole e.name e.filename (unfold find_name in rw (str_eq_self e.name)) in
    ground (
      arith,
      held,
      gone-read_entries p s es (λ n f h. whole n f (find_name-tail n f e es u.0 h)) u.1,
    )

-- Where names are unique, a GET by prefix answers each name that starts with it by the content that
-- the name stands for, and no other name.
pub load_data-view :
    (p n : Str) (s : Storage)
    → AreUnique s.db
    → lookup n (load_data p s).0 ≡ (if starts_with n p then view s n else none)
unfolding load_data view content_at
load_data-view p n s u = ground (arith, lookup-read_entries p n s.blobs s.db u)

-- While names are unique and no blob is lost, loading changes nothing.
pub load_data_pure : (p : Str) (s : Storage) → AreUnique s.db → IsIntact s → (load_data p s).1 ≡ s
unfolding load_data
load_data_pure p s u whole = rw (gone-read_entries p s s.db whole u) (unfold cleanup in refl)

-- find_missing returns exactly those of the names that are not entered.
pub member-find_missing :
    (n : Str) (names : List Str) (s : Storage)
    → member n (find_missing names s) ≡ (member n names && not (is_some (find_name n s.db)))
unfolding find_missing is_some
member-find_missing n names s = ground (
  arith,
  member-keep (λ name. is_empty (search_name name s.db)) n names,
  search_name-find_name n s.db,
)
