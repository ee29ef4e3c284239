-- ===== src/Tests/Uploads.antt =====
-- Runs of class File and the endpoints of rec/rest/nodes/datastore.py.
use ma_sinafadavi_claude.Rest.Datastore.File.Complete.{last_upload_wins, Written}
use ma_sinafadavi_claude.Rest.Datastore.Endpoints.Deleted.{
  deleted_while_stored, delete_job_data-listed,
}
use ma_sinafadavi_claude.Rest.Datastore.Endpoints.{
  data_list, delete_job_data, ends_with_result, not_found, store_end, delete_data, Datastore,
  get_data,
}
use ma_sinafadavi_claude.Rest.Datastore.File.Invariant.{whole}
use ma_sinafadavi_claude.Rest.Datastore.File.Sound.{created_is_whole}
use ma_sinafadavi_claude.Prelude.{
  List, ◌≡◌, ◌∷◌, refl, true, none, some, [], member, codes, Bytes, err, attribute_error, ◌++◌,
  ◌&&◌, not, starts_with, ok,
}
use ma_sinafadavi_claude.Rest.Datastore.File.{
  File, created, arrive, enter, count_down, open_file, test, write, finish, Steps, arrives, enters,
  counts_down, opens, tests, writes, finishes, stay, then_step, new_file,
}

abbrev upload : List Bytes
upload = (7 ∷ []) ∷ []

-- one upload from its call to its answer
unfoldable waiting_file : File
waiting_file = arrive upload (new_file none)

unfoldable opened : File
opened = open_file upload (count_down upload (enter upload [] waiting_file))

unfoldable stored_file : File
stored_file = finish upload (test upload [] (write upload (7 ∷ []) [] (test upload upload opened)))

arrived : Steps (new_file none) waiting_file
unfolding waiting_file
arrived =
    then_step (new_file none) (new_file none) waiting_file (stay (new_file none))
      (arrives upload (new_file none))

ran : Steps (new_file none) stored_file
unfolding stored_file opened waiting_file arrive new_file enter count_down open_file test write
    finish
ran =
    then_step (new_file none)
      (test upload [] (write upload (7 ∷ []) [] (test upload upload opened))) stored_file
      (then_step (new_file none) (write upload (7 ∷ []) [] (test upload upload opened)) _
        (then_step (new_file none) (test upload upload opened) _
          (then_step (new_file none) opened _
            (then_step (new_file none) (count_down upload (enter upload [] waiting_file)) _
              (then_step (new_file none) (enter upload [] waiting_file) _
                (then_step (new_file none) waiting_file _ arrived
                  (enters upload [] [] waiting_file refl refl))
                (counts_down upload (enter upload [] waiting_file) refl))
              (opens upload (count_down upload (enter upload [] waiting_file)) refl))
            (tests upload upload opened refl))
          (writes upload (7 ∷ []) [] (test upload upload opened) refl))
        (tests upload [] (write upload (7 ∷ []) [] (test upload upload opened)) refl))
      (finishes upload [] (test upload [] (write upload (7 ∷ []) [] (test upload upload opened)))
        refl)

created_is_whole_example : stored_file.content ≡ some (whole upload)
unfolding test write opened open_file count_down enter waiting_file arrive new_file
created_is_whole_example =
    created_is_whole none stored_file upload ran (unfold stored_file finish in refl)
      (unfold stored_file finish in refl)

last_upload_wins_example : (g : File) × (Steps waiting_file g × Written upload (whole upload) g)
last_upload_wins_example =
    last_upload_wins none [] upload waiting_file arrived
      (unfold waiting_file arrive new_file in refl) (unfold waiting_file arrive new_file in refl)

abbrev data_store : Datastore
data_store = record {
  data_files = (codes "j/a", codes "/d/j/a") ∷ (codes "j/result", codes "/d/j/result") ∷ [];
  stored_data = (codes "j/a", codes "/d/j/a") ∷ (codes "j/result", codes "/d/j/result") ∷ [];
}

unfoldable after_race : Datastore
after_race =
    (store_end (codes "j/a") (codes "/d/j/a") created
      (delete_data (λ path. true) (codes "j/a") data_store).1).1

deleted_while_stored_example :
    (member (codes "j/a") (data_list after_race) ≡ true)
    × ((get_data (codes "j/a") after_race ≡ err not_found)
        × ((delete_data (λ path. true) (codes "j/a") after_race).0 ≡ err attribute_error))
deleted_while_stored_example =
    deleted_while_stored (λ path. true) (codes "j/a") (codes "/d/j/a") data_store after_race refl
      (unfold after_race in refl)

-- the datastore without what job j brought
abbrev without_job : Datastore
without_job = record {
  data_files = (codes "j/result", codes "/d/j/result") ∷ [];
  stored_data = (codes "j/result", codes "/d/j/result") ∷ [];
}

job_deleted : delete_job_data (λ d. true) (codes "j") data_store ≡ (ok tt, without_job)
unfolding delete_job_data ma_sinafadavi_claude.Prelude.keep ma_sinafadavi_claude.Prelude.keys
    starts_with ma_sinafadavi_claude.Prelude.str_eq ma_sinafadavi_claude.Prelude.lookup
    ma_sinafadavi_claude.Prelude.remove
job_deleted = refl

delete_job_data-listed_example :
    (member (codes "j/a") (data_list without_job) ≡ (
      member (codes "j/a") (data_list data_store)
      && not (starts_with (codes "j/a") (codes "j") && not (ends_with_result (codes "j/a")))))
    × (member (codes "j" ++ codes "/result") (data_list without_job)
        ≡ member (codes "j" ++ codes "/result") (data_list data_store))
delete_job_data-listed_example =
    delete_job_data-listed (λ d. true) (codes "j") (codes "j/a") (codes "j") data_store without_job
      job_deleted
