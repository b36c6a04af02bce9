-- ===== src/Restore/Parallel.antt =====
-- `BuildahRestoreParallelized` of controllers/restore.go: its goroutines share the list of
-- containers and the name of the pod, which are in memory without a lock. A read and a write of
-- either are calls of their own. It is assumed that a write of the slice or of the text stores all
-- of it at once, and that an append makes a new array: Go promises neither to goroutines that do
-- not synchronise, so a torn write and an array that two slices share are not modelled.
pub mod Images
pub mod Results
pub mod Sound
pub mod Lost
use live_migration_operator.Base.{String, List, [], ◌∷◌, ◌++◌, Option, none, some}
use live_migration_operator.Go.{
  Interface, Prog, ret, panic, block, poll, call, Result, ok, err, World, ◌>>=◌, ◌>>◌,
}
use live_migration_operator.Go.Fork.{Fork, setup}
use live_migration_operator.Kube.{kube, read_dir, create_pod, Cluster}
use live_migration_operator.Kube.Objects.{Container, Pod}
use live_migration_operator.Restore.{restored_pod}
use live_migration_operator.Restore.ProcessFile.{process_file}

pub data Access : Type 0 where
  -- a call of the world outside
  outside : kube.Call → Access
  read_containers read_name : Access
  write_containers : List Container → Access
  write_name : String → Access

abbrev pub AccessReply : Access → Type 0
AccessReply (outside c) = kube.Reply c
AccessReply read_containers = List Container
AccessReply read_name = String
AccessReply (write_containers _) = Unit
AccessReply (write_name _) = Unit

abbrev pub memory : Interface
memory = record { Call = Access; Reply = AccessReply }

-- Code that does not use the memory.
unfoldable pub embed : {A : Type 0} → Prog kube A → Prog memory A
embed (ret a) = ret a
embed panic = panic
embed block = block
embed poll = poll
embed (call c k) = call (outside c) (λ r. embed (k r))

abbrev pub access : (c : Access) → Prog memory (AccessReply c)
access c = call c ret

-- The calls of the world outside.
unfoldable pub outside_of : List Access → List kube.Call
outside_of [] = []
outside_of (outside c ∷ tr) = c ∷ outside_of tr
outside_of (_ ∷ tr) = outside_of tr

-- What was written last, after what the memory held before.
unfoldable pub containers_after : List Container → List Access → List Container
containers_after held [] = held
containers_after held (write_containers l ∷ tr) = containers_after l tr
containers_after held (_ ∷ tr) = containers_after held tr

unfoldable pub name_after : String → List Access → String
name_after held [] = held
name_after held (write_name n ∷ tr) = name_after n tr
name_after held (_ ∷ tr) = name_after held tr

-- The memory begins with a nil slice and an empty name.
unfoldable pub remembering : Cluster → World memory
unfolding outside_of containers_after name_after
remembering w tr (outside c) = w (outside_of tr) c
remembering w tr read_containers = containers_after [] tr
remembering w tr read_name = name_after "" tr
remembering w tr (write_containers _) = tt
remembering w tr (write_name _) = tt

-- The three results of `processFile`.
abbrev pub containers_of_result : Result (List Container × String) → List Container
containers_of_result (ok (containers, _)) = containers
containers_of_result (err _) = []

abbrev pub name_of_result : Result (List Container × String) → String
name_of_result (ok (_, name)) = name
name_of_result (err _) = ""

-- What a goroutine does with the results. An error is sent to a channel with room for those of all
-- goroutines.
abbrev pub share : Result (List Container × String) → Prog memory Unit
share r = do
  access (write_name (name_of_result r))
  containers ← access read_containers
  access (write_containers (containers ++ containers_of_result r))

-- The goroutine of a file.
unfoldable pub restore_worker : String → String → Prog memory Unit
unfolding embed
restore_worker path file = embed (process_file file path) >>= share

abbrev pub restore_workers : String → List String → List (Prog memory (Unit {0}))
restore_workers path [] = []
restore_workers path (file ∷ files) = restore_worker path file ∷ restore_workers path files

-- What follows `Wait`: the folder is read again for nothing, and an error of the creation is only
-- logged.
unfoldable pub create_shared : String → String → Prog memory Pod
create_shared path namespace = do
  access (outside (read_dir path))
  name ← access read_name
  containers ← access read_containers
  (pod, _) ← access (outside (create_pod namespace (restored_pod name namespace containers)))
  ret pod

unfoldable pub buildah_restore_parallelized : String → String → Fork memory Pod
unfolding create_shared
buildah_restore_parallelized path namespace = setup (do
  (files, _) ← access (outside (read_dir path))
  ret (restore_workers path files, create_shared path namespace))
