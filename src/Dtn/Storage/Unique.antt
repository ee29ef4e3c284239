-- ===== src/Dtn/Storage/Unique.antt =====
-- Names are unique in the database, and each blob's name is the hash of its content.
use ma_sinafadavi_claude.Prelude.{
  true, false, List, [], ◌∷◌, ◌++◌, Option, none, some, if◌then◌else◌, not, Str, Bytes, str_eq,
  str_eq_iff, lookup, lookup-insert, keep, ◌≡◌, refl, arith, is_empty, ok, err, name_taken, inl,
  inr, Option-cases,
}
use ma_sinafadavi_claude.Dtn.Storage.{
  Entry, Storage, search_name, insert_entry, write_blob, store_data, cleanup, load_data,
}

-- the file name under which a name is entered
unfoldable pub find_name : Str → List Entry → Option Str
find_name n [] = none
find_name n (e ∷ es) = if str_eq e.name n then some e.filename else find_name n es

-- no name is entered twice
abbrev pub AreUnique : List Entry → Type 0
AreUnique [] = Unit
AreUnique (e ∷ es) = (find_name e.name es ≡ none) × AreUnique es

pub find_name-append :
    (n : Str) (e : Entry) (es : List Entry)
    → find_name n (es ++ e ∷ [])
      ≡ elim (find_name n es) [ some f ↦ some f | none ↦ find_name n (e ∷ []) ]
unfolding find_name
find_name-append n e [] = refl
find_name-append n e (d ∷ es) = ground (arith, find_name-append n e es)

pub find_name-keep :
    (n m : Str) (es : List Entry)
    → find_name n (keep (λ e. not (str_eq e.name m)) es)
      ≡ (if str_eq m n then none else find_name n es)
unfolding find_name keep
find_name-keep n m [] = ground arith
find_name-keep n m (e ∷ es) =
    ground (arith, find_name-keep n m es, str_eq_iff e.name m, str_eq_iff e.name n, str_eq_iff m n)

pub search_name-find_name :
    (n : Str) (es : List Entry)
    → is_empty (search_name n es) ≡ elim (find_name n es) [ none ↦ true | some _ ↦ false ]
unfolding search_name find_name keep
search_name-find_name n [] = refl
search_name-find_name n (e ∷ es) = ground (arith, search_name-find_name n es)

AreUnique-append :
    (e : Entry) (es : List Entry)
    → find_name e.name es ≡ none
    → AreUnique es
    → AreUnique (es ++ e ∷ [])
unfolding find_name
AreUnique-append e [] h u = (refl, tt)
AreUnique-append e (d ∷ es) h u = (
  ground (arith, find_name-append d.name e es, str_eq_iff d.name e.name, str_eq_iff e.name d.name),
  AreUnique-append e es (ground arith) u.1,
)

AreUnique-keep :
    (m : Str) (es : List Entry) → AreUnique es → AreUnique (keep (λ e. not (str_eq e.name m)) es)
unfolding keep
AreUnique-keep m [] u = tt
AreUnique-keep m (e ∷ es) u =
    ground (arith, find_name-keep e.name m es, AreUnique-keep m es u.1, str_eq_iff m e.name)

pub AreUnique-cleanup :
    (names : List Str) (s : Storage) → AreUnique s.db → AreUnique (cleanup names s).db
unfolding cleanup
AreUnique-cleanup [] s u = u
AreUnique-cleanup (m ∷ names) s u =
    AreUnique-cleanup names (record s { db = keep (λ e. not (str_eq e.name m)) s.db })
      (AreUnique-keep m s.db u)

pub blobs-cleanup : (names : List Str) (s : Storage) → (cleanup names s).blobs ≡ s.blobs
unfolding cleanup
blobs-cleanup [] s = refl
blobs-cleanup (m ∷ names) s =
    blobs-cleanup names (record s { db = keep (λ e. not (str_eq e.name m)) s.db })

-- what store_data does, by whether the name is entered
pub store_data-find_name :
    (sha1 : Bytes → Str) (n : Str) (c : Bytes) (s : Storage)
    → store_data sha1 n c s ≡ elim (find_name n s.db) [
      | some f ↦ (err (name_taken n), s)
      | none ↦ (ok tt, insert_entry n (sha1 c) (write_blob (sha1 c) c s))
    ]
unfolding store_data
store_data-find_name sha1 n c s = ground (arith, search_name-find_name n s.db)

module _ (sha1 : Bytes → Str) where
  pub record IsValid (s : Storage) : Type 0 where
    pub unique : AreUnique s.db
    pub hashed : (f : Str) (c : Bytes) → lookup f s.blobs ≡ some c → sha1 c ≡ f

  hashed_write_blob :
      (c : Bytes) (s : Storage)
      → ((f : Str) (d : Bytes) → lookup f s.blobs ≡ some d → sha1 d ≡ f)
      → (f : Str) (d : Bytes) → lookup f (write_blob (sha1 c) c s).blobs ≡ some d
      → sha1 d ≡ f
  unfolding write_blob
  hashed_write_blob c s h f d e =
      ground (arith, h f d, lookup-insert (sha1 c) f c s.blobs, str_eq_iff (sha1 c) f)

  db-write_blob : (f : Str) (c : Bytes) (s : Storage) → (write_blob f c s).db ≡ s.db
  unfolding write_blob
  db-write_blob f c s = ground arith

  -- Storing in a valid storage keeps names unique and blobs hashed, whether it succeeds or the name
  -- is taken.
  pub store_data-IsValid :
      (n : Str) (c : Bytes) (s : Storage) → IsValid s → IsValid (store_data sha1 n c s).1
  unfolding insert_entry
  store_data-IsValid n c s v = elim (Option-cases (find_name n s.db)) [
    | inl free ↦
        rw (store_data-find_name sha1 n c s, free)
          (record {
            unique =
                rw (db-write_blob (sha1 c) c s)
                  (AreUnique-append (record { name = n; filename = sha1 c }) s.db free v.unique);
            hashed = hashed_write_blob c s v.hashed;
          })
    | inr (f, taken) ↦ rw (store_data-find_name sha1 n c s, taken) v
  ]

  -- Dropping entries keeps the storage valid, so load_data and copy_to_file do.
  pub cleanup-IsValid : (names : List Str) (s : Storage) → IsValid s → IsValid (cleanup names s)
  cleanup-IsValid names s v = record {
    unique = AreUnique-cleanup names s v.unique;
    hashed = rw (blobs-cleanup names s) v.hashed;
  }

  pub load_data-IsValid : (n : Str) (s : Storage) → IsValid s → IsValid (load_data n s).1
  unfolding load_data
  load_data-IsValid n s v = cleanup-IsValid _ s v
