-- ===== src/Reconcile/Goroutines/Marker.antt =====
-- Which new files make the goroutine that watches files restore a pod.
use live_migration_operator.Base.{
  ℕ, suc, String, ◌<>◌, code, List, [], ◌∷◌, ◌++◌, ◌≡◌, refl, ◌∙◌, ap, true, false, eqb, begins,
  contains, if◌then◌else◌, arith, Bool-cases, inl, inr,
}
use text.Mathlib.TextLemmas.{nil-append, cons-append}
use live_migration_operator.Go.{run, ◌>>◌}
use live_migration_operator.Kube.{Call, created, next_file_event, Op, Cluster}
use live_migration_operator.Restore.Pipelined.{buildah_restore_pipelined}
use live_migration_operator.Reconcile.Goroutines.{is_marker, on_event, event_loop}

begins-append : (t s : String) → begins t (t <> s) ≡ true
unfolding begins
begins-append String.[] s = refl
begins-append (String.◌∷◌ c t) s = rw (cons-append c t s) (ground (arith, begins-append t s))

-- No character of the text is the letter.
abbrev Without : ℕ → String → Type 0
Without d String.[] = Unit
Without d (String.◌∷◌ c t) = (eqb d (code c) ≡ false) × Without d t

contains-append :
    (prefix s : String) → Without b'd' prefix → contains "dummy" (prefix <> s) ≡ contains "dummy" s
unfolding contains begins
contains-append String.[] s h = rw (nil-append s) refl
contains-append (String.◌∷◌ c t) s (h, hs) =
    rw (cons-append c t s) (ground (arith, h, contains-append t s hs))

contains_of_begins : (t s : String) → begins t s ≡ true → contains t s ≡ true
unfolding contains
contains_of_begins t String.[] h = h
contains_of_begins t (String.◌∷◌ c s) h = rw h refl

-- The path of a file in the folder, by the file's name.
abbrev pub in_folder : String → String
in_folder name = "/checkpoints/" <> name

is_marker-in_folder : (name : String) → is_marker (in_folder name) ≡ contains "dummy" name
is_marker-in_folder name =
    rw (contains_of_begins "/checkpoints/" (in_folder name) (begins-append "/checkpoints/" name))
      (contains-append "/checkpoints/" name (ground arith))

on_event-in_folder :
    (w : Cluster) (namespace name : String) (rest : Op Unit) (tr : List Call)
    → run w (on_event (created (in_folder name)) namespace rest) tr ≡ (
        if contains "dummy" name
        then run w (do buildah_restore_pipelined "/checkpoints/" namespace; rest) tr
        else run w rest tr)
on_event-in_folder w namespace name rest tr = elim (Bool-cases (contains "dummy" name)) [
  | inl named ↦ rw (is_marker-in_folder name ∙ named, named) refl
  | inr other ↦ rw (is_marker-in_folder name ∙ other, other) refl
]

-- When a file is created in the folder, the goroutine restores a pod from the folder and then goes
-- on, if `dummy` is a part of the file's name, and else goes on at once. So does an archive of a pod
-- or container whose name has that part.
pub event_loop_restores :
    (w : Cluster) (fuel : ℕ) (namespace name : String) (tr : List Call)
    → w tr next_file_event ≡ created (in_folder name)
    → run w (event_loop (suc fuel) namespace) tr ≡ (
        if contains "dummy" name
        then run w
            (do buildah_restore_pipelined "/checkpoints/" namespace; event_loop fuel namespace)
            (tr ++ next_file_event ∷ [])
        else run w (event_loop fuel namespace) (tr ++ next_file_event ∷ []))
unfolding event_loop run
event_loop_restores w fuel namespace name tr event =
    ap (λ e. run w (on_event e namespace (event_loop fuel namespace)) (tr ++ next_file_event ∷ []))
      event
    ∙ on_event-in_folder w namespace name (event_loop fuel namespace) (tr ++ next_file_event ∷ [])
