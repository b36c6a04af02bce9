-- ===== src/Utils/PodName/Laws.antt =====
-- Which texts `RetrievePodName` finds a name in, and which name.
use text.Mathlib.TextEquality.{Char-path}
use text.Mathlib.TextLemmas.{nil-append, cons-append}
use live_migration_operator.Base.{
  String, ◌<>◌, Char, code, ◌≡◌, ◌≢◌, ◌↔◌, ap, ◌∙◌, sym, none, some, true, false, eqb, arith, Lacks,
  Bool-cases, Option-cases, inl, inr,
}
use live_migration_operator.Utils.PodName.{
  marker, after_prefix, up_to_underscore, group, match_here, find_submatch, retrieve_pod_name,
}

after_prefix-append : (t s : String) → after_prefix t (t <> s) ≡ some s
unfolding after_prefix
after_prefix-append String.[] s = rw nil-append
after_prefix-append (String.◌∷◌ c t) s = rw cons-append (ground (arith, after_prefix-append t s))

-- The code of a character determines it.
code_cong : (c d : Char) → eqb (code c) (code d) ≡ true → c ≡ d
code_cong c d h = Char-path c d (ground arith)

after_prefix_sound : (t s r : String) → after_prefix t s ≡ some r → s ≡ t <> r
unfolding after_prefix
after_prefix_sound String.[] s r h = rw nil-append (cc)
after_prefix_sound (String.◌∷◌ c t) String.[] r h = cc
after_prefix_sound (String.◌∷◌ c t) (String.◌∷◌ d s) r h =
    elim (Bool-cases (eqb (code c) (code d))) [
      | inl e ↦ rw (cons-append, code_cong c d e, after_prefix_sound t s r (ground arith))
      | inr e ↦ ground arith
    ]

underscore-append : (s : String) → "_" <> s ≡ String.◌∷◌ "_" s
underscore-append s = cons-append "_" "" s ∙ ap (String.◌∷◌ "_") (nil-append s)

-- A text that spells a group, a `_` and more.
abbrev Spells : String → String → Type 0
Spells s g = (rest : String) × (s ≡ g <> ("_" <> rest)) × Lacks b'_' g × Lacks 10 g

Spells-cons :
    (c : Char) (s g : String)
    → eqb (code c) b'_' ≡ false
    → eqb (code c) 10 ≡ false
    → Spells s g
    → Spells (String.◌∷◌ c s) (String.◌∷◌ c g)
Spells-cons c s g h k (rest, e, u, l) =
    (rest, rw (cons-append c g ("_" <> rest), e), (h, u), (k, l))

up_to_underscore_sound : (s g : String) → up_to_underscore s ≡ some g → Spells s g
unfolding up_to_underscore
up_to_underscore_sound String.[] g h = cc
up_to_underscore_sound (String.◌∷◌ c s) g h = elim (Bool-cases (eqb (code c) b'_')) [
  | inl e ↦
      let e' : c ≡ "_" = code_cong c "_" e in
      let e'' : g ≡ "" = ground arith in
      rw (e', e'') (s, sym (nil-append _ ∙ underscore-append s), tt, tt)
  | inr e ↦ elim (Option-cases (up_to_underscore s)) [
    | inl n ↦ ground arith
    | inr (g', f) ↦
        let one_line : eqb (code c) 10 ≡ false = ground arith in
        let e' : g ≡ String.◌∷◌ c g' = ground arith in
        rw e' (Spells-cons c s g' e one_line (up_to_underscore_sound s g' f))
  ]
]

up_to_underscore-append :
    (g rest : String) → Lacks b'_' g → Lacks 10 g → up_to_underscore (g <> ("_" <> rest)) ≡ some g
unfolding up_to_underscore
up_to_underscore-append String.[] rest h k = rw (nil-append, underscore-append)
up_to_underscore-append (String.◌∷◌ c g) rest h k =
    rw (cons-append c g ("_" <> rest))
      (ground (arith, h.0, k.0, up_to_underscore-append g rest h.1 k.1))

-- What `(.+?)` takes in front of a `_`: one line, with no `_` behind the first character.
abbrev pub IsGroup : String → Type 0
IsGroup String.[] = ⊥
IsGroup (String.◌∷◌ c g) = (eqb (code c) 10 ≡ false) × Lacks b'_' g × Lacks 10 g

-- The text begins with a match of the expression, whose group is `g`.
abbrev pub MatchAt : String → String → Type 0
MatchAt s g = (rest : String) × (s ≡ marker <> (g <> ("_" <> rest))) × IsGroup g

group_sound :
    (s g : String) → group s ≡ some g → (rest : String) × (s ≡ g <> ("_" <> rest)) × IsGroup g
unfolding group
group_sound String.[] g h = cc
group_sound (String.◌∷◌ c s) g h = elim (Option-cases (up_to_underscore s)) [
  | inl n ↦ ground arith
  | inr (g', f) ↦
      let (rest, e, u, l) = up_to_underscore_sound s g' f in
      let one_line : eqb (code c) 10 ≡ false = ground arith in
      let e' : g ≡ String.◌∷◌ c g' = ground arith in
      rw e' (rest, rw (cons-append c g' ("_" <> rest), e), (one_line, u, l))
]

group-append : (g rest : String) → IsGroup g → group (g <> ("_" <> rest)) ≡ some g
unfolding group
group-append String.[] rest h = absurd h
group-append (String.◌∷◌ c g) rest (one_line, u, l) =
    rw (cons-append c g ("_" <> rest)) (ground (arith, up_to_underscore-append g rest u l))

match_here_sound : (s g : String) → match_here s ≡ some g → MatchAt s g
unfolding match_here
match_here_sound s g h = elim (Option-cases (after_prefix marker s)) [
  | inl n ↦ ground arith
  | inr (r, e) ↦
      let (rest, e', i) = group_sound r g (ground arith) in
      (rest, after_prefix_sound marker s r e ∙ ap (λ t. marker <> t) e', i)
]

match_here_complete : (s g : String) → MatchAt s g → match_here s ≡ some g
unfolding match_here
match_here_complete s g (rest, e, i) =
    rw e (rw (after_prefix-append marker (g <> ("_" <> rest)), match_here) (group-append g rest i))

no_match : (s : String) → match_here s ≡ none → (g : String) → ¬ MatchAt s g
no_match s n g m = cc (match_here_complete s g m)

match_here-none : (s : String) → ((g : String) → ¬ MatchAt s g) → match_here s ≡ none
match_here-none s n = elim (Option-cases (match_here s)) [
  | inl e ↦ e
  | inr (g, e) ↦ absurd (n g (match_here_sound s g e))
]

-- No match begins at an earlier character, in front of `s`.
abbrev pub NoneBefore : String → String → Type 0
NoneBefore String.[] s = Unit
NoneBefore (String.◌∷◌ c before) s =
    ((g : String) → ¬ MatchAt (String.◌∷◌ c before <> s) g) × NoneBefore before s

-- The leftmost match in the text has the group `g`.
abbrev pub FirstMatch : String → String → Type 0
FirstMatch path g =
    (before : String) × (s : String) × (path ≡ before <> s) × MatchAt s g × NoneBefore before s

find_sound : (path g : String) → find_submatch path ≡ some g → FirstMatch path g
unfolding find_submatch
find_sound String.[] g h = ("", "", sym (nil-append ""), match_here_sound "" g h, tt)
find_sound (String.◌∷◌ c path) g h = elim (Option-cases (match_here (String.◌∷◌ c path))) [
  | inl n ↦
      let (before, s, e, m, none_before) = find_sound path g (ground arith) in
      (
        String.◌∷◌ c before,
        s,
        rw (cons-append c before s, e),
        m,
        (rw (cons-append c before s, ← e) (no_match (String.◌∷◌ c path) n), none_before),
      )
  | inr (g', f) ↦ (
    "",
    String.◌∷◌ c path,
    sym (nil-append _),
    match_here_sound (String.◌∷◌ c path) g (ground arith),
    tt,
  )
]

pub find_complete :
    (before s g : String) → MatchAt s g → NoneBefore before s → find_submatch (before <> s) ≡ some g
unfolding find_submatch
find_complete String.[] String.[] g m n = match_here_complete "" g m
find_complete String.[] (String.◌∷◌ c s) g m n =
    rw nil-append (rw (match_here_complete (String.◌∷◌ c s) g m, find_submatch))
find_complete (String.◌∷◌ c before) s g m (n, ns) =
    let e : match_here (String.◌∷◌ c (before <> s)) ≡ none =
      rw (cons-append c before s) at (match_here-none (String.◌∷◌ c before <> s) n) in
    rw (cons-append c before s) (rw (e, find_submatch) (find_complete before s g m ns))

-- A non-empty name is returned exactly when it is the group of the leftmost match of
-- `checkpoint-(.+?)_` in the path.
pub retrieve_pod_name_iff :
    (path g : String) → g ≢ "" → (retrieve_pod_name path ≡ g) ↔ FirstMatch path g
unfolding retrieve_pod_name
retrieve_pod_name_iff path g h = (to, from)
  where
    to : retrieve_pod_name path ≡ g → FirstMatch path g
    to e = elim (Option-cases (find_submatch path)) [
      | inl n ↦ absurd (h (ground arith))
      | inr (g', f) ↦ find_sound path g (ground arith)
    ]

    from : FirstMatch path g → retrieve_pod_name path ≡ g
    from (before, s, e, m, n) =
        let f : find_submatch path ≡ some g = rw e (find_complete before s g m n) in ground arith
