-- ===== src/Dtn/Datastore/Data.antt =====
-- What a client that puts and gets named data can rely on.
use ma_sinafadavi_claude.Prelude.{
  false, ◌&&◌, Option, none, some, List, [], ◌∷◌, Str, Bytes, leb, ◌==◌, if◌then◌else◌, Result, ok,
  err, name_taken, Exec, ◌≡◌, refl, starts_with, str_eq, lookup, inl, inr, is_empty, append-nil,
  Bool-cases,
}
use ma_sinafadavi_claude.Dtn.Message.{BundleData, Message, one, many}
use ma_sinafadavi_claude.Dtn.Node.Rounds.{bundle_round_inv}
use ma_sinafadavi_claude.Dtn.Storage.{Storage, store_data, load_data}
use ma_sinafadavi_claude.Dtn.Storage.Unique.{
  find_name, IsValid, store_data-IsValid, load_data-IsValid,
}
use ma_sinafadavi_claude.Dtn.Storage.Views.{view, IsIntact, store_data-view, store_data_taken}
use ma_sinafadavi_claude.Dtn.Storage.Loads.{load_data-view}
use ma_sinafadavi_claude.Dtn.Datastore.{
  Datastore, names_of, taken_text, put_response, mark_failed, get_responses, get_all, put_all,
  handle_data, answers, handle_bundle, round,
}

-- the first payload that the answers give for a name
unfoldable pub payload_for : Str → List BundleData → Option Bytes
payload_for n [] = none
payload_for n (b ∷ bs) =
    let rest = payload_for n bs in
    elim b.named_data [
      | some (one m) ↦ if str_eq m n then some b.payload else rest
      | some (many ms) ↦ rest
      | none ↦ rest
    ]

payload_for-get_responses :
    (n id source : Str) (ls : List (Str × Bytes))
    → payload_for n (get_responses id source ls) ≡ lookup n ls
unfolding payload_for get_responses lookup
payload_for-get_responses n id source [] = refl
payload_for-get_responses n id source (l ∷ ls) = rw (payload_for-get_responses n id source ls)

module _ (sha1 : Bytes → Str) where
  put_all-IsValid :
      (id source : Str) (payload : Bytes) (names : List Str) (s : Storage)
      → IsValid sha1 s
      → IsValid sha1 (put_all sha1 id source payload names s).1
  unfolding put_all
  put_all-IsValid id source payload [] s v = v
  put_all-IsValid id source payload (n ∷ names) s v =
      put_all-IsValid id source payload names (store_data sha1 n payload s).1
        (store_data-IsValid sha1 n payload s v)

  get_all-IsValid :
      (id source : Str) (names : List Str) (s : Storage)
      → IsValid sha1 s
      → IsValid sha1 (get_all id source names s).1
  unfolding get_all
  get_all-IsValid id source [] s v = v
  get_all-IsValid id source (n ∷ names) s v =
      get_all-IsValid id source names (load_data n s).1 (load_data-IsValid sha1 n s v)

  handle_data-IsValid :
      (b : BundleData) (d : Datastore)
      → IsValid sha1 d.storage
      → IsValid sha1 (handle_data sha1 b d).1.storage
  unfolding handle_data
  handle_data-IsValid b d v = elim (Bool-cases (b.type == 21)) [
    | inl put ↦
        rw put
          (put_all-IsValid d.node.node_id b.source b.payload (names_of b.named_data) d.storage v)
    | inr other ↦ elim (Bool-cases (b.type == 22)) [
      | inl get ↦
          rw (other, get)
            (get_all-IsValid d.node.node_id b.source (names_of b.named_data) d.storage v)
      | inr neither ↦ rw (other, neither) v
    ]
  ]

  answers-IsValid :
      (b : BundleData) (d : Datastore)
      → IsValid sha1 d.storage
      → IsValid sha1 (answers sha1 b d).1.storage
  unfolding answers
  answers-IsValid b d v = elim (Bool-cases (leb 1 b.type && leb b.type 3)) [
    | inl discovery ↦ rw discovery v
    | inr other ↦ elim (Bool-cases (leb 21 b.type && leb b.type 23)) [
      | inl named ↦ rw (other, named) (unfold handle_data in handle_data-IsValid b d v)
      | inr neither ↦ rw (other, neither) v
    ]
  ]

  datastore-handle_bundle :
      {W : Type 0} (send : Message → Exec W Message) (b : BundleData) (s : Datastore × W)
      → (handle_bundle sha1 send b s).1.0 ≡ (answers sha1 b s.0).1
  unfolding handle_bundle
  datastore-handle_bundle send b s = elim (Bool-cases (is_empty (answers sha1 b s.0).0)) [
    | inl quiet ↦ rw quiet
    | inr busy ↦ rw busy
  ]

  -- A datastore whose storage is valid keeps it valid in every round, whatever bundles come in it,
  -- whatever dtnd answers, and wherever an exception ends it.
  pub round-IsValid :
      {W : Type 0} (send : Message → Exec W Message) (s : Datastore × W)
      → IsValid sha1 s.0.storage
      → IsValid sha1 (round sha1 send s).0.storage
  unfolding round
  round-IsValid send s v =
      bundle_round_inv send (λ d. IsValid sha1 d.storage) (λ d. d.node) (handle_bundle sha1 send)
        (λ b t w. rw (datastore-handle_bundle send b t) (answers-IsValid b t.0 w)) s v

  module _ (b : BundleData) (d : Datastore) (n : Str) (t : b.type ≡ 21)
      (e : b.named_data ≡ some (one n)) where
    put_one :
        (r : Result (Unit {0})) (s : Storage)
        → store_data sha1 n b.payload d.storage ≡ (r, s)
        → handle_data sha1 b d
          ≡ (mark_failed r (put_response d.node.node_id b.source n) ∷ [], record d { storage = s })
    unfolding handle_data
    put_one r s h = rw (t, e, h)

    -- A PUT of one name that is taken is answered by a failure with the error's text, and changes
    -- nothing.
    pub put_taken :
        (f : Str)
        → find_name n d.storage.db ≡ some f
        → handle_data sha1 b d ≡ (
          record (put_response d.node.node_id b.source n) { success = false; error = taken_text n }
              ∷ [],
          d,
        )
    unfolding mark_failed
    put_taken f taken =
        put_one (err (name_taken n)) d.storage (store_data_taken sha1 n f b.payload d.storage taken)

  get_one :
      (b : BundleData) (d : Datastore) (p n : Str)
      → IsValid sha1 d.storage
      → b.type ≡ 22
      → b.named_data ≡ some (one p)
      → payload_for n (handle_data sha1 b d).0
        ≡ (if starts_with n p then view d.storage n else none)
  unfolding handle_data
  get_one b d p n v t e =
      rw (t, e, append-nil, payload_for-get_responses) (load_data-view p n d.storage v.unique)

  -- Named data survives: a PUT of one free name is answered by success, and a GET of any prefix
  -- after it gives that name's payload, and every other name's as before, for the names with the
  -- prefix and no others. The storage is valid and has all its blobs, and no other content has the
  -- payload's hash.
  pub put_then_get :
      (put get : BundleData) (d : Datastore) (n p m : Str)
      → put.type ≡ 21
      → put.named_data ≡ some (one n)
      → get.type ≡ 22
      → get.named_data ≡ some (one p)
      → IsValid sha1 d.storage
      → IsIntact d.storage
      → ((c : Bytes) → sha1 c ≡ sha1 put.payload → c ≡ put.payload)
      → find_name n d.storage.db ≡ none
      → ((handle_data sha1 put d).0 ≡ put_response d.node.node_id put.source n ∷ [])
        × (payload_for m (handle_data sha1 get (handle_data sha1 put d).1).0 ≡ (
            if starts_with m p
            then (if str_eq n m then some put.payload else view d.storage m)
            else none))
  unfolding mark_failed
  put_then_get put get d n p m t e t' e' v whole unlike free =
      let (done, views) = store_data-view sha1 n put.payload d.storage v whole unlike free in
      let s' = (store_data sha1 n put.payload d.storage).1 in
      rw (put_one put d n t e (ok tt) s' (λ i. (done i, s'))) (
        refl,
        rw (
          get_one get (record d { storage = s' }) p m
              (store_data-IsValid sha1 n put.payload d.storage v) t' e',
          views m,
        ),
      )
