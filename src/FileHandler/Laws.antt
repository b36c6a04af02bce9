-- ===== src/FileHandler/Laws.antt =====
-- What the file handler stores and replies.
use live_migration_operator.Base.{
  ℕ, String, ◌<>◌, List, [], ◌∷◌, ◌++◌, ◌≡◌, Option, none, some, ◌==◌, arith, if◌then◌else◌,
}
use live_migration_operator.Go.{World, done, run}
use live_migration_operator.Go.Calls.{made}
use live_migration_operator.FileHandler.{
  Call, form_file, open_file, create_file, copy_file, reply_error, http, equal_fold, save_upload,
  handle_file, route,
}

-- The statuses of the errors that the calls reply.
abbrev pub errors : List Call → List ℕ
errors [] = []
errors (reply_error _ status ∷ cs) = status ∷ errors cs
errors (_ ∷ cs) = errors cs

abbrev first_of : Option String → ℕ → List ℕ → List ℕ
first_of none status rest = rest
first_of (some _) status rest = status ∷ []

module _ (w : World http) (tr : List Call) where
  abbrev name : String
  name = (w tr (form_file "file")).0

  abbrev tr₁ : List Call
  tr₁ = tr ++ form_file "file" ∷ []

  abbrev tr₂ : List Call
  tr₂ = tr₁ ++ open_file name ∷ []

  abbrev tr₃ : List Call
  tr₃ = tr₂ ++ create_file ("/mnt/data/" <> name) ∷ []

  -- The steps of an upload in turn, with the status that the failure of each is replied with.
  abbrev pub upload_errors : List ℕ
  upload_errors = first_of (w tr (form_file "file")).1 400 (
      first_of (w tr₁ (open_file name)) 500 (
        first_of (w tr₂ (create_file ("/mnt/data/" <> name))) 500
          (first_of (w tr₃ (copy_file name ("/mnt/data/" <> name))) 500 [])))

  -- A request always gets an answer with at most one error: 404 for every path but `/upload`, 405
  -- for a method that is neither POST nor GET, none for GET, and for POST that of the first step
  -- of the upload that fails, if one does.
  pub route-errors :
      (path method : String)
      → ((run w (route path method) tr).0 ≡ done tt)
        × (errors (made w (route path method) tr) ≡ (
            if path == "/upload"
            then (if equal_fold method "POST"
                then upload_errors
                else if equal_fold method "GET"
                then []
                else 405 ∷ [])
            else 404 ∷ []))
  unfolding route handle_file save_upload made run
  route-errors path method = ground arith
