-- ===== src/Kube/Maps.antt =====
-- Go maps from texts to texts, as association lists in which no key stands twice.
use live_migration_operator.Base.{
  String, [], ◌∷◌, ◌≡◌, refl, Option, none, some, ◌==◌, eq_iff, if◌then◌else◌, arith,
}
use live_migration_operator.Kube.Objects.{Dict}

-- `m[key]` with its second result: `none` where the key is missing.
unfoldable pub lookup : String → Dict → Option String
lookup key [] = none
lookup key ((k, v) ∷ d) = let rest = lookup key d in if k == key then some v else rest

-- `m[key]` alone: the zero value where the key is missing.
abbrev pub at : String → Dict → String
at key d = elim (lookup key d) [ none ↦ "" | some v ↦ v ]

-- `m[key] = value`
unfoldable pub put : String → String → Dict → Dict
put key value [] = (key, value) ∷ []
put key value ((k, v) ∷ d) =
    let rest = put key value d in if k == key then (key, value) ∷ d else (k, v) ∷ rest

-- `for k, v := range from { into[k] = v }`
unfoldable pub put_all : Dict → Dict → Dict
unfolding put
put_all [] into = into
put_all ((k, v) ∷ from) into = put_all from (put k v into)

-- A nil map has no keys.
abbrev pub keys_of : Option Dict → Dict
keys_of none = []
keys_of (some d) = d

-- No key stands twice.
abbrev pub Distinct : Dict → Type 0
Distinct [] = Unit
Distinct ((k, v) ∷ d) = (lookup k d ≡ none) × Distinct d

pub lookup-put :
    (key k v : String) (d : Dict)
    → lookup key (put k v d) ≡ (if k == key then some v else lookup key d)
unfolding lookup put
lookup-put key k v [] = refl
lookup-put key k v ((k', v') ∷ d) =
    ground (arith, eq_iff k key, eq_iff k' key, eq_iff k' k, lookup-put key k v d)

pub put-Distinct : (k v : String) (d : Dict) → Distinct d → Distinct (put k v d)
unfolding lookup put
put-Distinct k v [] h = ground arith
put-Distinct k v ((k', v') ∷ d) h =
    ground (arith, eq_iff k' k, eq_iff k k', lookup-put k' k v d, put-Distinct k v d, h)

-- A copied key is read, and any other is read in the map that was copied into.
pub lookup-put_all :
    (key : String) (from into : Dict)
    → Distinct from
    → lookup key (put_all from into)
      ≡ elim (lookup key from) [ none ↦ lookup key into | some v ↦ some v ]
unfolding lookup put_all
lookup-put_all key [] into h = refl
lookup-put_all key ((k, v) ∷ from) into h =
    ground (
      arith,
      eq_iff k key,
      lookup-put key k v into,
      lookup-put_all key from (put k v into) h.1,
      h.0,
    )
