-- ===== src/FileHandler.antt =====
-- file-handler/file-handler.go: the server in the receiving pod.
pub mod Laws
use live_migration_operator.Base.{
  ℕ, ◌+◌, String, ◌<>◌, code, List, [], ◌∷◌, Bool, true, false, ◌&&◌, Option, none, some, ◌==◌, eqb,
  leb, if◌then◌else◌,
}
use live_migration_operator.Go.{Interface, Prog, ret, call, World, ◌>>=◌, ◌>>◌}

-- What the handler asks of fasthttp and of the file system.
pub data Call : Type 0 where
  -- ctx.FormFile; the reply is the file's name
  form_file : String → Call
  -- FileHeader.Open
  open_file : String → Call
  -- os.Create
  create_file : String → Call
  -- io.Copy from the file of this name to the file at this path
  copy_file : String → String → Call
  -- ctx.Error
  reply_error : String → ℕ → Call
  -- ctx.SetStatusCode
  set_status : ℕ → Call

abbrev pub Reply : Call → Type 0
Reply (form_file _) = String × Option String
Reply (open_file _) = Option String
Reply (create_file _) = Option String
Reply (copy_file _ _) = Option String
Reply (reply_error _ _) = Unit
Reply (set_status _) = Unit

abbrev pub http : Interface
http = record { Call = Call; Reply = Reply }

abbrev pub Handler : Type 0
Handler = Prog http Unit

abbrev ask : (c : Call) → Prog http (Reply c)
ask c = call c ret

-- Simple folding, for the comparison with a text of ASCII letters: the long s and the Kelvin sign
-- are folded to letters too.
abbrev pub fold : ℕ → ℕ
fold c =
    if leb 65 c && leb c 90
    then c + 32
    else if eqb c 0x17F
    then b's'
    else if eqb c 0x212A
    then b'k'
    else c

-- `strings.EqualFold`
unfoldable pub equal_fold : String → String → Bool
equal_fold String.[] String.[] = true
equal_fold (String.◌∷◌ c s) (String.◌∷◌ d t) =
    let rest = equal_fold s t in eqb (fold (code c)) (fold (code d)) && rest
equal_fold _ _ = false

-- A step of the upload: an error is replied and ends it.
abbrev or_error : Option String → String → ℕ → Handler → Handler
or_error none message status rest = rest
or_error (some _) message status rest = ask (reply_error message status)

-- The branch of `handleFile` for an upload.
unfoldable pub save_upload : Handler
save_upload = do
  (name, e) ← ask (form_file "file")
  or_error e "Unsupported path" 400 do
    e ← ask (open_file name)
    or_error e "Failed to open file" 500 do
      e ← ask (create_file ("/mnt/data/" <> name))
      or_error e "Failed to create destination file" 500 do
        e ← ask (copy_file name ("/mnt/data/" <> name))
        or_error e "Failed to copy file contents" 500 (ret tt)

unfoldable pub handle_file : String → Handler
unfolding save_upload equal_fold
handle_file method =
    if equal_fold method "POST"
    then save_upload
    else if equal_fold method "GET"
    then ask (set_status 200)
    else ask (reply_error "Method not allowed." 405)

-- The routes of `main`.
unfoldable pub route : String → String → Handler
unfolding handle_file
route path method =
    if path == "/upload" then handle_file method else ask (reply_error "not found" 404)
