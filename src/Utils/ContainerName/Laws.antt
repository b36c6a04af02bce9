-- ===== src/Utils/ContainerName/Laws.antt =====
-- What `RetrieveContainerName` returns, by the dash-separated parts of the path.
use mathlib.Core.List.{reverse, reverse-append}
use live_migration_operator.Base.{
  String, ◌<>◌, ◌≡◌, ◌≢◌, refl, List, [], ◌∷◌, ◌++◌, eq_iff, split, split-append, split_whole,
  Lacks, All, arith, append_assoc, append-nil, All-append,
}
use live_migration_operator.Go.{done, panicked}
use live_migration_operator.Utils.ContainerName.{name_before, scan, retrieve_container_name}

-- `strings.Join(parts, "-")`
abbrev pub join_dash : List String → String
join_dash [] = ""
join_dash (p ∷ []) = p
join_dash (p ∷ q ∷ ps) = p <> ("-" <> join_dash (q ∷ ps))

abbrev pub NoDash : List String → Type 0
NoDash = All (Lacks b'-')

abbrev pub NoYear : List String → Type 0
NoYear = All (λ p. p ≢ "2024")

split-join_dash :
    (p : String) (ps : List String) → NoDash (p ∷ ps) → split (join_dash (p ∷ ps)) "-" ≡ p ∷ ps
split-join_dash p [] h = split_whole "-" "" p h.0
split-join_dash p (q ∷ ps) h =
    rw (split-append "-" "" p (join_dash (q ∷ ps)) h.0, split-join_dash q ps h.1)

scan-append : (xs ys : List String) → NoYear xs → scan (xs ++ ys) ≡ scan ys
unfolding scan
scan-append [] ys h = refl
scan-append (x ∷ xs) ys h = ground (arith, eq_iff x "2024", h.0, scan-append xs ys h.1)

scan_at_year : (ys : List String) → scan ("2024" ∷ ys) ≡ name_before ys
unfolding scan
scan_at_year ys = refl

NoYear-reverse : (xs : List String) → NoYear xs → NoYear (reverse xs)
NoYear-reverse [] h = tt
NoYear-reverse (x ∷ xs) h =
    rw (reverse-append (x ∷ []) xs)
      (All-append (λ p. p ≢ "2024") (reverse xs) (x ∷ []) (NoYear-reverse xs h.1) (h.0, tt))

-- The last part that is the year decides.
scan-reverse :
    (before after : List String)
    → NoYear after
    → scan (reverse (before ++ ("2024" ∷ after))) ≡ name_before (reverse before)
scan-reverse before after h =
    rw
      (
        reverse-append before ("2024" ∷ after),
        reverse-append ("2024" ∷ []) after,
        append_assoc (reverse after) ("2024" ∷ []) (reverse before),
        scan-append (reverse after) ("2024" ∷ reverse before) (NoYear-reverse after h),
      )
      (scan_at_year (reverse before))

retrieve-join_dash :
    (before after : List String)
    → NoDash (before ++ ("2024" ∷ after))
    → NoYear after
    → retrieve_container_name (join_dash (before ++ ("2024" ∷ after)))
      ≡ name_before (reverse before)
unfolding retrieve_container_name
retrieve-join_dash [] after h n = rw (split-join_dash "2024" after h) (scan-reverse [] after n)
retrieve-join_dash (b ∷ before) after h n =
    rw (split-join_dash b (before ++ ("2024" ∷ after)) h) (scan-reverse (b ∷ before) after n)

-- If the last part 2024 of a dash-separated path has at least two parts in front of it, the
-- container's name is the last two of them, with the dash between them.
pub retrieve_container_name_archive :
    (before : List String) (first last : String) (after : List String)
    → NoDash ((before ++ (first ∷ last ∷ [])) ++ ("2024" ∷ after))
    → NoYear after
    → retrieve_container_name (join_dash ((before ++ (first ∷ last ∷ [])) ++ ("2024" ∷ after)))
      ≡ done (first <> ("-" <> last))
unfolding name_before
retrieve_container_name_archive before first last after h n = rw (
  retrieve-join_dash (before ++ (first ∷ last ∷ [])) after h n,
  reverse-append before (first ∷ last ∷ []),
)

-- If the last part 2024 of a dash-separated path has a single part in front of it, the code
-- panics.
pub retrieve_container_name_panics :
    (first : String) (after : List String)
    → NoDash (first ∷ "2024" ∷ after)
    → NoYear after
    → retrieve_container_name (join_dash (first ∷ "2024" ∷ after)) ≡ panicked
unfolding name_before
retrieve_container_name_panics first after h n = rw (retrieve-join_dash (first ∷ []) after h n)

-- A path with no part 2024, such as an archive of any other year, has the empty container name.
pub retrieve_container_name_other_year :
    (path : String) → NoYear (split path "-") → retrieve_container_name path ≡ done ""
unfolding retrieve_container_name
retrieve_container_name_other_year path h =
    let none_left : scan (reverse (split path "-") ++ []) ≡ done "" =
      rw (scan-append (reverse (split path "-")) [] (NoYear-reverse (split path "-") h)) refl in
    rw (← append-nil (reverse (split path "-"))) none_left
