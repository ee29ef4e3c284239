-- ===== src/Rest/Job/Files/Stored.antt =====
-- store_named against a reference: store from the front, stop at the first failure.
use ma_sinafadavi_claude.Rest.Job.Uploads.{AreDistinct}
use ma_sinafadavi_claude.Rest.Job.Files.{
  try_store_named_data, Host, remove_each, store_each, Broker, Disk, store_named,
}
use ma_sinafadavi_claude.Prelude.{
  List, ◌≡◌, ◌∷◌, ◌+◌, if◌then◌else◌, refl, true, false, [], arith, Str, member, remove, keys,
  length, str_eq_self, ◌==◌, Bool, is_empty, ◌∙◌, ap,
}
use ma_sinafadavi_claude.Rest.Job.{StrDict}

remove_fresh :
    {V : Type 0} (k : Str) (d : List (Str × V)) → member k (keys d) ≡ false → remove k d ≡ d
unfolding remove keys member
remove_fresh k [] h = refl
remove_fresh k ((j, w) ∷ d) h = ground (arith, remove_fresh k d)

remove_first :
    {V : Type 0} (k : Str) (v : V) (d : List (Str × V))
    → member k (keys d) ≡ false
    → remove k ((k, v) ∷ d) ≡ d
unfolding remove
remove_first k v d h = ground (arith, str_eq_self k, remove_fresh k d h)

module _ {W : Type 0} (broker : Broker W) (host : Host) where
  -- what is left to store, and the disk
  unfoldable pub store_front : StrDict → Disk W → StrDict × Disk W
  store_front [] s = ([], s)
  store_front ((path, name) ∷ entries) s =
      let (b, s') = try_store_named_data broker host name path s in
      let rest = store_front entries s' in if b then rest else ((path, name) ∷ entries, s')

  -- the loop and the reference agree on a list of entries
  pub record Agrees (todo : StrDict) (gone : List Str × Disk W) (left : StrDict × Disk W)
      : Type 0 where
    pub same_disk : gone.1 ≡ left.1
    pub rest_left : remove_each gone.0 todo ≡ left.0
    pub none_lost : length gone.0 + length left.0 ≡ length todo

  stored_or_not :
      (path name : Str) (todo : StrDict) (r : Bool × Disk W)
      → member path (keys todo) ≡ false
      → Agrees todo (store_each broker host todo r.1) (store_front todo r.1)
      → Agrees
          ((path, name) ∷ todo)
          (if r.0
            then (path ∷ (store_each broker host todo r.1).0, (store_each broker host todo r.1).1)
            else ([], r.1))
          (if r.0 then store_front todo r.1 else ((path, name) ∷ todo, r.1))
  unfolding remove_each
  stored_or_not path name todo (true, t) h k = record {
    same_disk = k.same_disk;
    rest_left =
        ap (remove_each (store_each broker host todo t).0) (remove_first path name todo h)
        ∙ k.rest_left;
    none_lost = omega (arith, k.none_lost);
  }
  stored_or_not path name todo (false, t) h k = record {
    same_disk = refl;
    rest_left = refl;
    none_lost = omega arith;
  }

  store_each-front :
      (todo : StrDict) (s : Disk W)
      → AreDistinct (keys todo)
      → Agrees todo (store_each broker host todo s) (store_front todo s)
  unfolding store_each store_front remove_each keys
  store_each-front [] s h = record { same_disk = refl; rest_left = refl; none_lost = refl }
  store_each-front ((path, name) ∷ todo) s h =
      let r = try_store_named_data broker host name path s in
      stored_or_not path name todo r h.0 (store_each-front todo r.1 h.1)

  -- how store_named ends, by what its loop has done
  conclusion : StrDict → Disk W → List Str × Disk W → Bool × (StrDict × Disk W)
  unfolding remove_each
  conclusion todo s (gone, t) =
      if is_empty todo
      then (true, (todo, s))
      else if length gone == length todo
      then (true, ([], t))
      else (false, (remove_each gone todo, t))

  conclusion_lem :
      (x : Str × Str) (todo : StrDict) (s t : Disk W) (gone : List Str) (rest : StrDict)
      → Agrees (x ∷ todo) (gone, t) (rest, t)
      → conclusion (x ∷ todo) s (gone, t) ≡ (is_empty rest, (rest, t))
  unfolding conclusion
  conclusion_lem x todo s t gone [] h = ground (arith, h.none_lost)
  conclusion_lem x todo s t gone (y ∷ rest) h = ground (arith, h.none_lost, h.rest_left)

  concluded :
      (x : Str × Str) (todo : StrDict) (s : Disk W) (gone : List Str × Disk W)
      (left : StrDict × Disk W)
      → Agrees (x ∷ todo) gone left
      → conclusion (x ∷ todo) s gone ≡ (is_empty left.0, left)
  concluded x todo s (gone, t) (rest, u) h = rw h.same_disk (
      conclusion_lem x todo s u gone rest
        (record { same_disk = refl; rest_left = h.rest_left; none_lost = h.none_lost }))

  -- store_named stores the named results from the front and stops at the first that cannot be stored:
  -- exactly those that it did not store are left, in their order, and it answers whether none is. The
  -- paths of a dict are distinct.
  pub store_named-front :
      (todo : StrDict) (s : Disk W)
      → AreDistinct (keys todo)
      → store_named broker host todo s ≡ (is_empty (store_front todo s).0, store_front todo s)
  unfolding store_named store_front conclusion
  store_named-front [] s h = refl
  store_named-front (x ∷ todo) s h =
      concluded x todo s (store_each broker host (x ∷ todo) s) (store_front (x ∷ todo) s)
        (store_each-front (x ∷ todo) s h)
