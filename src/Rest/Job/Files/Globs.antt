-- ===== src/Rest/Job/Files/Globs.antt =====
-- What resolve_glob_data makes of the names that end with a star.
use ma_sinafadavi_claude.Rest.Names.{drop_last}
use ma_sinafadavi_claude.Rest.Job.Files.{
  is_glob, remove_each, resolve_glob_data, Host, add_starred, glob_each, Broker,
}
use ma_sinafadavi_claude.Prelude.{
  List, ◌≡◌, ◌∷◌, if◌then◌else◌, refl, none, some, [], arith, remove, lookup, Str, member,
  lookup-remove, ap, Bool, true, false, lookup-insert, insert,
}
use ma_sinafadavi_claude.Rest.Job.{StrDict, insert_all}

lookup-insert_all :
    (x : Str) (entries d : StrDict)
    → lookup x (insert_all entries d)
      ≡ (elim (lookup x (insert_all entries [])) [ none ↦ lookup x d | some v ↦ some v ])
unfolding insert_all lookup
lookup-insert_all x [] d = refl
lookup-insert_all x ((host, path) ∷ entries) d = ground (
  arith,
  lookup-insert_all x entries (insert host path d),
  lookup-insert_all x entries (insert host path []),
  lookup-insert host x path d,
  lookup-insert host x path [],
)

pub lookup-remove_each :
    {V : Type 0} (x : Str) (ks : List Str) (d : List (Str × V))
    → lookup x (remove_each ks d) ≡ (if member x ks then none else lookup x d)
unfolding remove_each member
lookup-remove_each x [] d = refl
lookup-remove_each x (k ∷ ks) d =
    ground (arith, lookup-remove_each x ks (remove k d), lookup-remove k x d)

-- the names of a dict's entries that are globs
unfoldable pub glob_names : StrDict → List Str
glob_names [] = []
glob_names ((name, path) ∷ d) =
    let rest = glob_names d in if is_glob name path then name ∷ rest else rest

module _ {W : Type 0} (broker : Broker W) (host : Host) where
  glob_each-names :
      (d to_add : StrDict) (w : W) → (glob_each broker host d to_add w).0.1 ≡ glob_names d
  unfolding glob_each glob_names
  glob_each-names [] to_add w = refl
  glob_each-names ((name, path) ∷ d) to_add w =
      let (names, w') = broker.get_data_glob (drop_last name) w in
      both (glob_each broker host d (add_starred name path names to_add) w')
        (glob_each broker host d to_add w) (is_glob name path)
        (glob_each-names d (add_starred name path names to_add) w') (glob_each-names d to_add w)
    where
      both :
          (r s : (StrDict × List Str) × W) (b : Bool)
          → r.0.1 ≡ glob_names d
          → s.0.1 ≡ glob_names d
          → (if b then ((r.0.0, name ∷ r.0.1), r.1) else s).0.1
            ≡ (if b then name ∷ glob_names d else glob_names d)
      both r s true e f = ap (λ ks. name ∷ ks) e
      both r s false e f = f

  -- After the globs of a job's named data are resolved, every name whose entry was a glob is gone; of
  -- the other names, those that the broker listed for a glob have the path made from it, and the rest
  -- the path that they had.
  pub resolve_glob_data-lookup :
      (x : Str) (d : StrDict) (w : W)
      → lookup x (resolve_glob_data broker host d w).0 ≡ (
          if member x (glob_names d)
          then none
          else elim (lookup x (insert_all (glob_each broker host d [] w).0.0 [])) [
            | none ↦ lookup x d
            | some v ↦ some v
          ])
  unfolding resolve_glob_data
  resolve_glob_data-lookup x d w =
      rw
        (
          lookup-remove_each x (glob_each broker host d [] w).0.1
              (insert_all (glob_each broker host d [] w).0.0 d),
          glob_each-names d [] w,
          lookup-insert_all x (glob_each broker host d [] w).0.0 d,
        )
        refl
