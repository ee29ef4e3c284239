-- ===== src/Dtn/Storage/Views.antt =====
-- The storage as a map from names to contents.
use ma_sinafadavi_claude.Prelude.{
  Option, none, some, if◌then◌else◌, inl, inr, ◌⊎◌, ◌≡◌, refl, arith, Bool-cases, Str, Bytes,
  str_eq, str_eq_iff, lookup, lookup-insert, ok, err, name_taken, Option-cases,
}
use ma_sinafadavi_claude.Dtn.Storage.{Storage, insert_entry, write_blob, store_data}
use ma_sinafadavi_claude.Dtn.Storage.Unique.{
  find_name, find_name-append, store_data-find_name, IsValid,
}

-- the content that a name stands for
unfoldable pub view : Storage → Str → Option Bytes
view s n = elim (find_name n s.db) [ none ↦ none | some f ↦ lookup f s.blobs ]

-- every entry has its blob
abbrev pub IsIntact : Storage → Type 0
IsIntact s = (n f : Str) → find_name n s.db ≡ some f → (c : Bytes) × (lookup f s.blobs ≡ some c)

module _ (sha1 : Bytes → Str) where
  pub find_name-insert_entry :
      (n m : Str) (c : Bytes) (s : Storage)
      → find_name n s.db ≡ none
      → find_name m (insert_entry n (sha1 c) (write_blob (sha1 c) c s)).db
        ≡ (if str_eq n m then some (sha1 c) else find_name m s.db)
  unfolding insert_entry find_name write_blob
  find_name-insert_entry n m c s free =
      ground
        (arith, find_name-append m (record { name = n; filename = sha1 c }) s.db, str_eq_iff n m)

  lookup-insert_entry :
      (n f : Str) (c : Bytes) (s : Storage)
      → ((d : Bytes) → lookup (sha1 c) s.blobs ≡ some d → d ≡ c)
      → lookup f (insert_entry n (sha1 c) (write_blob (sha1 c) c s)).blobs
        ≡ (if str_eq (sha1 c) f then some c else lookup f s.blobs)
  unfolding insert_entry write_blob
  lookup-insert_entry n f c s same = elim (Option-cases (lookup (sha1 c) s.blobs)) [
    | inl new ↦ ground (arith, lookup-insert (sha1 c) f c s.blobs)
    | inr (d, old) ↦ ground (arith, same d old, str_eq_iff (sha1 c) f)
  ]

  module _ (n : Str) (c : Bytes) (s : Storage) (whole : IsIntact s)
      (same : (d : Bytes) → lookup (sha1 c) s.blobs ≡ some d → d ≡ c)
      (free : find_name n s.db ≡ none) where
    view-insert_entry :
        (m : Str)
        → view (insert_entry n (sha1 c) (write_blob (sha1 c) c s)) m
          ≡ (if str_eq n m then some c else view s m)
    unfolding view
    view-insert_entry m = elim (Option-cases (find_name m s.db)) [
      | inl none_m ↦ ground (
        arith,
        find_name-insert_entry n m c s free,
        lookup-insert_entry n (sha1 c) c s same,
        str_eq_iff (sha1 c) (sha1 c),
      )
      | inr (f, entered) ↦ ground (
        arith,
        find_name-insert_entry n m c s free,
        lookup-insert_entry n (sha1 c) c s same,
        lookup-insert_entry n f c s same,
        str_eq_iff (sha1 c) (sha1 c),
        str_eq_iff (sha1 c) f,
        (whole m f entered).1,
        same (whole m f entered).0,
      )
    ]

  -- A free name is stored: it then stands for the content, and every other name for what it did,
  -- in a valid storage that has all its blobs, when no other content has the same hash.
  pub store_data-view :
      (n : Str) (c : Bytes) (s : Storage)
      → IsValid sha1 s
      → IsIntact s
      → ((d : Bytes) → sha1 d ≡ sha1 c → d ≡ c)
      → find_name n s.db ≡ none
      → ((store_data sha1 n c s).0 ≡ ok tt)
        × ((m : Str) → view (store_data sha1 n c s).1 m ≡ (if str_eq n m then some c else view s m))
  store_data-view n c s v whole unlike free =
      rw (store_data-find_name sha1 n c s, free)
        (refl, view-insert_entry n c s whole (λ d h. unlike d (v.hashed (sha1 c) d h)) free)

  -- Storing loses no blob, whether it succeeds or the name is taken: in a valid storage where every
  -- entry has its blob, every entry has it afterwards, when no other content has the same hash.
  pub store_data-IsIntact :
      (n : Str) (c : Bytes) (s : Storage)
      → IsValid sha1 s
      → IsIntact s
      → ((d : Bytes) → sha1 d ≡ sha1 c → d ≡ c)
      → IsIntact (store_data sha1 n c s).1
  store_data-IsIntact n c s v whole unlike m f = elim (Option-cases (find_name n s.db)) [
    | inl free ↦
        rw (store_data-find_name sha1 n c s, free)
          (λ entered. at free entered (Option-cases (find_name m s.db)))
    | inr (g, taken) ↦ rw (store_data-find_name sha1 n c s, taken) (whole m f)
  ]
    where
      same : (d : Bytes) → lookup (sha1 c) s.blobs ≡ some d → d ≡ c
      same d h = unlike d (v.hashed (sha1 c) d h)

      s' : Storage
      s' = insert_entry n (sha1 c) (write_blob (sha1 c) c s)

      at :
          find_name n s.db ≡ none
          → find_name m s'.db ≡ some f
          → (find_name m s.db ≡ none) ⊎ ((g : Str) × (find_name m s.db ≡ some g))
          → (d : Bytes) × (lookup f s'.blobs ≡ some d)
      at free entered (inl new) = (
        c,
        ground (
          arith,
          find_name-insert_entry n m c s free,
          lookup-insert_entry n f c s same,
          str_eq_iff (sha1 c) f,
        ),
      )
      at free entered (inr (g, old)) =
          let (d, held) = whole m g old in
          elim (Bool-cases (str_eq n m)) [
            | inl eq ↦ (
              c,
              ground (
                arith,
                find_name-insert_entry n m c s free,
                lookup-insert_entry n f c s same,
                str_eq_iff (sha1 c) f,
              ),
            )
            | inr ne ↦ elim (Bool-cases (str_eq (sha1 c) f)) [
              | inl eq ↦ (c, ground (arith, lookup-insert_entry n f c s same))
              | inr ne' ↦ (
                d,
                ground
                    (arith, find_name-insert_entry n m c s free, lookup-insert_entry n f c s same),
              )
            ]
          ]

  -- A name that is taken is refused, and nothing changes.
  pub store_data_taken :
      (n f : Str) (c : Bytes) (s : Storage)
      → find_name n s.db ≡ some f
      → store_data sha1 n c s ≡ (err (name_taken n), s)
  store_data_taken n f c s taken = rw (store_data-find_name sha1 n c s, taken)
