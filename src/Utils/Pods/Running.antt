-- ===== src/Utils/Pods/Running.antt =====
-- What `GetActualRunningPod` counts and collects.
use mathlib.Core.List.{Perm, perm_middle}
use mathlib.Core.List.Perm
use live_migration_operator.Base.{
  ℕ, ◌+◌, List, [], ◌∷◌, ◌++◌, ◌≡◌, refl, subst, ◌∙◌, sym, none, some, length, All, append-nil,
  append_assoc, arith, Option-cases, inl, inr, ◌≢◌,
}
use live_migration_operator.Kube.Objects.{Pod}
use live_migration_operator.Utils.Pods.{running_loop, get_actual_running_pod}

-- The pods with no deletion timestamp, and those with one.
abbrev pub kept : List Pod → List Pod
kept [] = []
kept (pod ∷ pods) = elim pod.meta.deletion_timestamp [ none ↦ pod ∷ kept pods | some _ ↦ kept pods ]

abbrev pub deleting : List Pod → List Pod
deleting [] = []
deleting (pod ∷ pods) = elim pod.meta.deletion_timestamp [
  | none ↦ deleting pods
  | some _ ↦ pod ∷ deleting pods
]

triple :
    {a a' : ℕ} {b b' c c' : List Pod}
    → a ≡ a'
    → b ≡ b'
    → c ≡ c'
    → ◌≡◌ {A = ℕ × List Pod × List Pod} (a, b, c) (a', b', c')
triple p q r = rw (p, q, r) refl

running_loop-filters :
    (pods : List Pod) (count : ℕ) (running gone : List Pod)
    → running_loop pods count running gone
      ≡ (count + length (kept pods), running ++ kept pods, gone ++ deleting pods)
unfolding running_loop
running_loop-filters [] count running gone =
    triple (omega arith) (sym (append-nil running)) (sym (append-nil gone))
running_loop-filters (pod ∷ pods) count running gone =
    elim (Option-cases pod.meta.deletion_timestamp) [
      | inl live ↦ rw live (
          running_loop-filters pods (count + 1) (running ++ pod ∷ []) gone
          ∙ triple (omega arith) (append_assoc running (pod ∷ []) (kept pods)) refl)
      | inr (t, doomed) ↦ rw doomed (
          running_loop-filters pods count running (gone ++ pod ∷ [])
          ∙ triple refl refl (append_assoc gone (pod ∷ []) (deleting pods)))
    ]

kept_live :
    (pod : Pod) (pods : List Pod)
    → pod.meta.deletion_timestamp ≡ none
    → kept (pod ∷ pods) ++ deleting (pod ∷ pods) ≡ pod ∷ (kept pods ++ deleting pods)
kept_live pod pods h = simp h

kept_doomed :
    (pod : Pod) (pods : List Pod) (t : ℕ)
    → pod.meta.deletion_timestamp ≡ some t
    → kept (pod ∷ pods) ++ deleting (pod ∷ pods) ≡ kept pods ++ pod ∷ deleting pods
kept_doomed pod pods t h = simp h

kept_deleting-Perm : (pods : List Pod) → Perm pods (kept pods ++ deleting pods)
kept_deleting-Perm [] = Perm.refl []
kept_deleting-Perm (pod ∷ pods) = elim (Option-cases pod.meta.deletion_timestamp) [
  | inl live ↦
      subst (λ l. Perm (pod ∷ pods) l) (sym (kept_live pod pods live))
        (Perm.cons pod (kept_deleting-Perm pods))
  | inr (t, doomed) ↦
      subst (λ l. Perm (pod ∷ pods) l) (sym (kept_doomed pod pods t doomed))
        (Perm.trans (Perm.cons pod (kept_deleting-Perm pods))
          (Perm.symm (perm_middle (kept pods) (deleting pods))))
]

kept-All : (pods : List Pod) → All (λ (pod : Pod). pod.meta.deletion_timestamp ≡ none) (kept pods)
kept-All [] = tt
kept-All (pod ∷ pods) = elim (Option-cases pod.meta.deletion_timestamp) [
  | inl live ↦ rw live (live, kept-All pods)
  | inr (t, doomed) ↦ rw doomed (kept-All pods)
]

deleting-All :
    (pods : List Pod) → All (λ (pod : Pod). pod.meta.deletion_timestamp ≢ none) (deleting pods)
deleting-All [] = tt
deleting-All (pod ∷ pods) = elim (Option-cases pod.meta.deletion_timestamp) [
  | inl live ↦ rw live (deleting-All pods)
  | inr (t, doomed) ↦ rw doomed ((λ e. cc (doomed, e)), deleting-All pods)
]

-- Every pod is either running or being deleted, the count is that of the running ones, and exactly
-- the pods with a deletion timestamp are being deleted.
pub get_actual_running_pod_partition :
    (pods : List Pod)
    → let (count, running, gone) = get_actual_running_pod pods in
      (count ≡ length running)
      × Perm pods (running ++ gone)
      × All (λ (pod : Pod). pod.meta.deletion_timestamp ≡ none) running
      × All (λ (pod : Pod). pod.meta.deletion_timestamp ≢ none) gone
unfolding get_actual_running_pod
get_actual_running_pod_partition pods =
    rw (running_loop-filters pods 0 [] [])
      (omega arith, kept_deleting-Perm pods, kept-All pods, deleting-All pods)
