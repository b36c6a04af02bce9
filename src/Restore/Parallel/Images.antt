-- ===== src/Restore/Parallel/Images.antt =====
-- The commands of `processFile` for an image, among the calls of all goroutines.
use live_migration_operator.Base.{
  String, List, [], ◌∷◌, ◌++◌, ◌≡◌, ◌⊎◌, inl, inr, refl, sym, subst, Extends,
}
use live_migration_operator.Restore.{from_scratch, add_call, config_call, commit_call, rm_call}
use live_migration_operator.Restore.Parallel.{Access, outside}

-- The calls stand in the list in this order, with any others between them.
abbrev pub Within : List Access → List Access → Type 0
Within [] tr = Unit
Within (c ∷ cs) [] = ⊥
Within (c ∷ cs) (d ∷ tr) = ((c ≡ d) × Within cs tr) ⊎ Within (c ∷ cs) tr

Within-append : (cs tr more : List Access) → Within cs tr → Within cs (tr ++ more)
Within-append [] tr more h = tt
Within-append (c ∷ cs) [] more h = absurd h
Within-append (c ∷ cs) (d ∷ tr) more (inl (e, h)) = inl (e, Within-append cs tr more h)
Within-append (c ∷ cs) (d ∷ tr) more (inr h) = inr (Within-append (c ∷ cs) tr more h)

pub Within-later : (cs tr now : List Access) → Extends tr now → Within cs tr → Within cs now
Within-later cs tr now (more, e) h = subst (Within cs) (sym e) (Within-append cs tr more h)

one-Within : (c : Access) (tr : List Access) → Within (c ∷ []) (tr ++ c ∷ [])
one-Within c [] = inl (refl, tt)
one-Within c (d ∷ tr) = inr (one-Within c tr)

pub Within-snoc :
    (cs tr : List Access) (c : Access) → Within cs tr → Within (cs ++ c ∷ []) (tr ++ c ∷ [])
Within-snoc [] tr c h = one-Within c tr
Within-snoc (b ∷ cs) [] c h = absurd h
Within-snoc (b ∷ cs) (d ∷ tr) c (inl (e, h)) = inl (e, Within-snoc cs tr c h)
Within-snoc (b ∷ cs) (d ∷ tr) c (inr h) = inr (Within-snoc (b ∷ cs) tr c h)

-- The commands that make the image of a container from an archive and take their container away.
abbrev pub image_calls : String → String → String → List Access
image_calls working archive name =
    outside from_scratch
    ∷ outside (add_call working archive)
    ∷ outside (config_call working name)
    ∷ outside (commit_call working name)
    ∷ outside (rm_call working)
    ∷ []

-- All of them were requested.
abbrev pub Imaged : String → String → List Access → Type 0
Imaged archive name tr = (working : String) × Within (image_calls working archive name) tr
