-- ===== src/Examples/Uploads.antt =====
-- Requests to the file handler.
use live_migration_operator.Base.{[], ◌∷◌, ◌≡◌, none, some, true, ◌==◌, if◌then◌else◌, refl}
use live_migration_operator.Go.{World, done, run}
use live_migration_operator.Go.Calls.{made}
use live_migration_operator.FileHandler.{
  form_file, open_file, create_file, copy_file, reply_error, set_status, http, equal_fold, route,
}
use live_migration_operator.FileHandler.Laws.{errors, upload_errors, route-errors}

-- The disk is full: files can be created, but not written.
abbrev full : World http
full tr (form_file _) = ("checkpoint.tar", none)
full tr (open_file _) = none
full tr (create_file _) = none
full tr (copy_file _ _) = some "no space left on device"
full tr (reply_error _ _) = tt
full tr (set_status _) = tt

route-errors_example :
    ((run full (route "/upload" "post") []).0 ≡ done tt)
    × (errors (made full (route "/upload" "post") []) ≡ (
        if "/upload" == "/upload"
        then (if equal_fold "post" "POST"
            then upload_errors full []
            else if equal_fold "post" "GET"
            then []
            else 405 ∷ [])
        else 404 ∷ []))
route-errors_example = route-errors full [] "/upload" "post"

-- So the upload is answered with 500.
errors_full : upload_errors full [] ≡ 500 ∷ []
errors_full = refl

equal_fold_post : equal_fold "pOſt" "POST" ≡ true
unfolding equal_fold
equal_fold_post = refl
