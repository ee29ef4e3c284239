-- ===== src/Tests/Clients.antt =====
-- Runs of the REST client, of the proxy's retries and of the data broker.
use ma_sinafadavi_claude.Rest.Job.Files.{Broker}
use ma_sinafadavi_claude.Rest.Job.{exec_wasm, job_data_name}
use ma_sinafadavi_claude.Rest.Model.{named, JobInfo}
use ma_sinafadavi_claude.Prelude.{
  Option, Result, ◌≡◌, ◌∷◌, ◌+◌, ◌-◌, ◌*◌, ◌==◌, ◌≢◌, ℕ, suc, refl, ap, true, false, none, some,
  List, [], arith,
}
use ma_sinafadavi_claude.Rest.Datastore.Endpoints.{listed, Datastore}
use ma_sinafadavi_claude.Rest.DataBroker.Located.{first_holder, job_data_location-first}
use ma_sinafadavi_claude.Rest.DataBroker.Listed.{get_data_glob-listed, lists_any}
use ma_sinafadavi_claude.Rest.Client.Stops.{receive_each-stops, receive_each}
use ma_sinafadavi_claude.Rest.Retry.{check_and_retry-once, check_and_retry, slept}
use ma_sinafadavi_claude.Rest.Client.{all_submitted, Client, run_job}
use ma_sinafadavi_claude.Rest.Cache.{or_empty, new_cache, get_datastore, DatastoreCache}
use ma_sinafadavi_claude.Rest.Client.Reruns.{rerun_fails, unqueued_never_starts}
use ma_sinafadavi_claude.Rest.DataBroker.{next_page, job_data_location, get_data_glob, Stores}
use ma_sinafadavi_claude.Rest.DataBroker.Pages.{IsPaged}
use ma_sinafadavi_claude.Prelude.{
  List, ◌≡◌, ◌∷◌, ◌+◌, ◌-◌, ◌*◌, ◌==◌, ◌≢◌, ℕ, suc, refl, ap, true, false, none, some, [], arith,
  keys, member, starts_with, drop, Str, lookup, codes, is_empty, take, keep, ok, str_eq, Option,
  Result,
}
use ma_sinafadavi_claude.Tests.Files.{broker, host, disk, text_job, sent}

abbrev client : Client ℕ
client = record {
  disk = disk;
  pending_results = (codes "j", codes "job") ∷ [];
  all_queued = false;
  stopped = false;
}

-- a broker that takes every file and every job; the world counts the files
abbrev taking : Broker ℕ
taking = record {
  get_data = λ name w. (([], false), w);
  store_data = λ bytes name w. (true, suc w);
  get_data_glob = λ prefix w. ([], w);
}

-- a client with the files of the job
abbrev with_files : ℕ → Client ℕ
with_files w = record client {
  disk = record {
    files = (codes "p", 1 ∷ []) ∷ (codes "in", 2 ∷ []) ∷ (codes "q", 3 ∷ []) ∷ [];
    world = w;
  };
}

abbrev run : Str → JobInfo → Client ℕ → Result (Option Str) × (JobInfo × Client ℕ)
run id j c =
    run_job taking host (λ j i ws w. (some i, w)) (λ i w. w) (λ h. false) (codes "job") id (some [])
      (j, c)

first_run : run (codes "j") text_job (with_files 0) ≡ (ok (some (codes "j")), (sent, with_files 3))
unfolding run_job sent str_eq lookup ma_sinafadavi_claude.Prelude.insert
    ma_sinafadavi_claude.Prelude.values
first_run = refl

rerun_fails_example :
    (sent.wasm_bin ≡ named (job_data_name (codes "j") exec_wasm))
    × (c₃ : Client ℕ) × (run (codes "k") sent (with_files 3) ≡ (ok none, (sent, c₃)))
unfolding str_eq
rerun_fails_example =
    rerun_fails taking host (λ j i ws w. (some i, w)) (λ i w. w) (λ h. false) (codes "job")
      (codes "job") (codes "j") (codes "k") (codes "p") (codes "j") text_job sent (some [])
      (some []) (with_files 0) (with_files 3) (with_files 3) refl refl first_run
      (unfold lookup in refl)

unqueued_never_starts_example :
    (run_job broker host
      (λ j id ws w. (some id, w))
      (λ id w. w)
      (λ h. false)
      (codes "job")
      (codes "k")
      none
      (text_job, client)).0
    ≢ ok (some (codes "k"))
unqueued_never_starts_example =
    unqueued_never_starts broker host (λ j id ws w. (some id, w)) (λ id w. w) (λ h. false)
      (codes "job") (codes "k") (codes "k") text_job client

receive_each-stops_example :
    (receive_each ((false, codes "j") ∷ (true, codes "j") ∷ []) (all_submitted client)).stopped
    ≡ is_empty
        (receive_each
          ((false, codes "j") ∷ (true, codes "j") ∷ [])
          (all_submitted client)).pending_results
receive_each-stops_example =
    receive_each-stops ((false, codes "j") ∷ (true, codes "j") ∷ []) client refl

-- the broker is found after two sleeps, and the call reports a failure
check_and_retry-once_example :
    check_and_retry (λ w. w == 2) (λ w. (some false, w + 10)) (λ w. w + 1) (2 + suc 7) 0
    ≡ (some false, 12)
unfolding slept
check_and_retry-once_example =
    check_and_retry-once (λ w. w == 2) (λ w. (some false, w + 10)) (λ w. w + 1) 2 7 0 false
      (refl, (refl, tt)) refl refl

abbrev holds : Str → Datastore
holds store = record {
  data_files = (codes "a", codes "/d/a") ∷ [];
  stored_data = (codes "a", codes "/d/a") ∷ (codes "b", codes "/d/b") ∷ [];
}

abbrev net : Stores
net = record {
  page = λ store name job n. take 1 (drop (n - 1) (listed name job (holds store)));
  arrival = λ store n. n;
  numbers = λ store n. (2, n, 1);
}

parts :
    (store : Str) (n : ℕ)
    → next_page net (codes "a") none store (n + 1)
      ≡ take 1 (drop (n * 1) (listed (codes "a") none (holds store)))
unfolding next_page
parts store n =
    let e : (n + 1) - 1 ≡ n * 1 = omega arith in
    ap (λ k. take 1 (drop k (listed (codes "a") none (holds store)))) e

paged : IsPaged net (codes "a") none (λ store. listed (codes "a") none (holds store)) 1
paged = record { sized = omega arith; parts = parts }

get_data_glob-listed_example :
    (names : List Str) × ((c' : DatastoreCache) × ((get_data_glob net 5
            (codes "s" ∷ [])
            (codes "a")
            new_cache
          ≡ some (names, c'))
        × ((x : Str) → member x names ≡ lists_any holds (codes "a") x (codes "s" ∷ []))))
get_data_glob-listed_example =
    get_data_glob-listed net holds (codes "a") 1 paged 5 (codes "s" ∷ []) new_cache
      (unfold listed keep keys starts_with or_empty in (omega arith, tt))

job_data_location-first_example :
    (c' : DatastoreCache) × (job_data_location net 1 0 5 (codes "s" ∷ []) (codes "a") none new_cache
      ≡ some (
        first_holder (λ store. listed (codes "a") none (holds store)) (codes "a") (codes "s" ∷ []),
        c',
      ))
job_data_location-first_example =
    job_data_location-first net (codes "a") none (λ store. listed (codes "a") none (holds store)) 1
      paged 1 0 5 (codes "s" ∷ []) new_cache
      (unfold listed keep keys starts_with or_empty in (omega arith, tt))
      (unfold get_datastore new_cache in refl)
