-- ===== src/Utils/PodName/CheckpointPath.antt =====
-- `RetrievePodName` on the paths of checkpoint archives, `<dir>/checkpoint-<pod>_<rest>`.
use text.Mathlib.TextLemmas.{nil-append, cons-append}
use live_migration_operator.Base.{
  ℕ, suc, ◌+◌, ◌<◌, String, ◌<>◌, code, ◌≡◌, refl, ap, eqb, arith, if◌then◌else◌, Lacks, size,
}
use live_migration_operator.Utils.PodName.{marker, retrieve_pod_name}
use live_migration_operator.Utils.PodName.Laws.{IsGroup, MatchAt, NoneBefore, find_complete}

-- How many characters stand in front of the first dash.
dash_at : String → ℕ
dash_at String.[] = 0
dash_at (String.◌∷◌ c s) = if eqb (code c) b'-' then 0 else suc (dash_at s)

dash_at-append : (p s : String) → Lacks b'-' p → dash_at (p <> s) ≡ size p + dash_at s
unfolding dash_at
dash_at-append String.[] s h = rw nil-append (omega arith)
dash_at-append (String.◌∷◌ c p) s (h, hs) = rw cons-append (ground (arith, dash_at-append p s hs))

dash_at_prefix : (p s : String) → dash_at p < size p → dash_at (p <> s) ≡ dash_at p
unfolding dash_at
dash_at_prefix String.[] s h = absurd (omega arith)
dash_at_prefix (String.◌∷◌ c p) s h = rw cons-append (ground (arith, dash_at_prefix p s))

dash_at-marker : (s : String) → dash_at (marker <> s) ≡ 10
unfolding dash_at
dash_at-marker s = dash_at_prefix marker s (omega arith)

-- A match in front of an archive's name would end at another dash than the name's first.
NoneBefore-dir : (dir s : String) → Lacks b'-' dir → NoneBefore dir (marker <> s)
NoneBefore-dir String.[] s h = tt
NoneBefore-dir (String.◌∷◌ c dir) s (h, hs) = (no_match, NoneBefore-dir dir s hs)
  where
    no_match : (g : String) → ¬ MatchAt (String.◌∷◌ c dir <> (marker <> s)) g
    no_match g (rest, e, _) = omega (
      arith,
      dash_at-append (String.◌∷◌ c dir) (marker <> s) (h, hs),
      dash_at-marker s,
      dash_at-marker (g <> ("_" <> rest)),
      ap dash_at e,
    )

-- The pod's name is read back from the path `<dir>checkpoint-<pod>_<rest>` of its archive, if the
-- folder's path has no dash, and the name is not empty, is one line and has no `_` behind its
-- first character.
pub retrieve_pod_name_archive :
    (dir pod rest : String)
    → Lacks b'-' dir
    → IsGroup pod
    → retrieve_pod_name (dir <> (marker <> (pod <> ("_" <> rest)))) ≡ pod
unfolding retrieve_pod_name
retrieve_pod_name_archive dir pod rest h i = rw (
  find_complete dir (marker <> (pod <> ("_" <> rest))) pod (rest, refl, i)
      (NoneBefore-dir dir (pod <> ("_" <> rest)) h),
  retrieve_pod_name,
)
