-- ===== src/Sidecar/Catalog.antt =====
-- The choice of a sidecar's template from several catalogs: internal/sidecar/catalog.go. A map is an
-- association list; where the code walks through one, it does so from its end.
use exasol_personal.Common.{
  ◌≡◌, refl, ap, ◌∙◌, inl, inr, Option, none, some, List, [], ◌∷◌, Bytes, bytes_eq, if◌then◌else◌,
  contains, insert_text, lookup, put, bytes_key, lookup-put_same, lookup-put_other, Bool-cases,
  eq_of_bytes_eq,
}
use exasol_personal.Sidecar.Document.{Definition}

pub record Entry : Type 0 where
  pub definition : Definition
  pub description : Bytes
  pub architectures : List Bytes

abbrev pub Entries : Type 0
Entries = List (Bytes × Entry)

-- the entry, or the choices that the error names
pub data Resolved : Type 0 where
  resolved : Entry → Resolved
  not_in_catalog not_available : List Bytes → Resolved

-- the sorted names of the entries for an architecture
unfoldable pub choices : Bytes → Entries → List Bytes
unfolding insert_text contains
choices arch [] = []
choices arch ((name, e) ∷ es) =
    let rest = choices arch es in
    if contains e.architectures arch then insert_text name rest else rest

abbrev pub resolve_found : Option Entry → Bytes → List Bytes → Resolved
resolve_found none arch names = not_in_catalog names
resolve_found (some e) arch names =
    if contains e.architectures arch then resolved e else not_available names

-- `resolveEntry`
unfoldable pub resolve_entry : Entries → Bytes → Bytes → Resolved
unfolding choices lookup
resolve_entry entries name arch = resolve_found (lookup name entries) arch (choices arch entries)

-- `maps.Copy`
unfoldable pub copy : Entries → Entries → Entries
unfolding put
copy [] dst = dst
copy ((name, e) ∷ src) dst = put name e (copy src dst)

-- `Catalogs.Entries`: the earlier catalogs are copied over the later ones.
unfoldable pub entries_of : List Entries → Entries
unfolding copy
entries_of [] = []
entries_of (c ∷ cs) = copy c (entries_of cs)

-- the loop of `Catalogs.Resolve`; `all` is for the error
unfoldable pub resolve_from : Entries → List Entries → Bytes → Bytes → Resolved
unfolding resolve_entry
resolve_from all [] name arch = resolve_entry all name arch
resolve_from all (c ∷ cs) name arch =
    let later = resolve_from all cs name arch in
    elim (resolve_entry c name arch) as (λ _. Resolved) [
      | resolved e ↦ resolved e
      | not_in_catalog names ↦ later
      | not_available names ↦ later
    ]

-- `Catalogs.Resolve`
unfoldable pub resolve_in : List Entries → Bytes → Bytes → Resolved
unfolding resolve_from entries_of
resolve_in catalogs name arch = resolve_from (entries_of catalogs) catalogs name arch

-- The first catalog that has the name for the architecture.
abbrev offer : Bytes → Option Entry → Option Entry
offer arch none = none
offer arch (some e) = if contains e.architectures arch then some e else none

abbrev or_later : Option Entry → Option Entry → Option Entry
or_later none later = later
or_later (some e) later = some e

abbrev pub first_offer : List Entries → Bytes → Bytes → Option Entry
first_offer [] name arch = none
first_offer (c ∷ cs) name arch = or_later (offer arch (lookup name c)) (first_offer cs name arch)

abbrev pub entry_of : Resolved → Option Entry
entry_of (resolved e) = some e
entry_of (not_in_catalog names) = none
entry_of (not_available names) = none

lookup-copy :
    (name : Bytes) (src dst : Entries)
    → lookup name (copy src dst) ≡ or_later (lookup name src) (lookup name dst)
unfolding copy lookup
lookup-copy name [] dst = refl
lookup-copy name ((k, e) ∷ src) dst = elim (Bool-cases (bytes_eq name k)) [
  | inl same ↦
      let eq = eq_of_bytes_eq name k same in rw (same, eq) (lookup-put_same k e (copy src dst))
  | inr other ↦ rw other (lookup-put_other name k e (copy src dst) other ∙ lookup-copy name src dst)
]

entry_of-resolve_entry :
    (es : Entries) (name arch : Bytes)
    → entry_of (resolve_entry es name arch) ≡ offer arch (lookup name es)
unfolding resolve_entry
entry_of-resolve_entry es name arch = go (lookup name es)
  where
    go : (o : Option Entry) → entry_of (resolve_found o arch (choices arch es)) ≡ offer arch o
    go none = refl
    go (some e) = elim (Bool-cases (contains e.architectures arch)) [
      | inl h ↦ rw h refl
      | inr h ↦ rw h refl
    ]

-- a catalog that does not offer the name for the architecture
no_offer :
    (arch : Bytes) (here later : Option Entry)
    → or_later (offer arch here) none ≡ none
    → offer arch later ≡ none
    → offer arch (or_later here later) ≡ none
no_offer arch none later h k = k
no_offer arch (some e) later h k = elim (Bool-cases (contains e.architectures arch)) [
  | inl there ↦ cc (rw there at h)
  | inr missing ↦ rw missing refl
]

or_later-none : (a b : Option Entry) → or_later a b ≡ none → (or_later a none ≡ none) × (b ≡ none)
or_later-none none b h = (refl, h)
or_later-none (some e) b h = cc

-- What no catalog offers, all of them together do not offer.
entries_of-offer :
    (cs : List Entries) (name arch : Bytes)
    → first_offer cs name arch ≡ none
    → offer arch (lookup name (entries_of cs)) ≡ none
unfolding entries_of lookup
entries_of-offer [] name arch h = refl
entries_of-offer (c ∷ cs) name arch h =
    let (here, later) = or_later-none (offer arch (lookup name c)) (first_offer cs name arch) h in
    ap (offer arch) (lookup-copy name c (entries_of cs))
    ∙ no_offer arch (lookup name c) (lookup name (entries_of cs)) here
        (entries_of-offer cs name arch later)

-- one catalog of the loop
resolve_step :
    (r later : Resolved) (o : Option Entry)
    → entry_of r ≡ o
    → entry_of (elim r as (λ _. Resolved) [
      | resolved e ↦ resolved e
      | not_in_catalog names ↦ later
      | not_available names ↦ later
    ])
      ≡ or_later o (entry_of later)
resolve_step (resolved e) later o h = rw (← h) refl
resolve_step (not_in_catalog names) later o h = rw (← h) refl
resolve_step (not_available names) later o h = rw (← h) refl

or_later_assoc : (a b c : Option Entry) → or_later a (or_later b c) ≡ or_later (or_later a b) c
or_later_assoc none b c = refl
or_later_assoc (some e) b c = refl

resolve_from-offer :
    (all : Entries) (cs : List Entries) (name arch : Bytes)
    → entry_of (resolve_from all cs name arch)
      ≡ or_later (first_offer cs name arch) (entry_of (resolve_entry all name arch))
unfolding resolve_from
resolve_from-offer all [] name arch = refl
resolve_from-offer all (c ∷ cs) name arch =
    resolve_step (resolve_entry c name arch) (resolve_from all cs name arch)
      (offer arch (lookup name c)) (entry_of-resolve_entry c name arch)
    ∙ (ap (or_later (offer arch (lookup name c))) (resolve_from-offer all cs name arch)
        ∙ or_later_assoc (offer arch (lookup name c)) (first_offer cs name arch)
            (entry_of (resolve_entry all name arch)))

or_later_self : (a b : Option Entry) → (a ≡ none → b ≡ none) → or_later a b ≡ a
or_later_self none b h = h refl
or_later_self (some e) b h = refl

-- A name is resolved for an architecture exactly when some catalog has an entry of that name for it,
-- and then to the entry of the first one that has it, also where an earlier catalog has the name for
-- other architectures only.
pub resolve_in_lem :
    (cs : List Entries) (name arch : Bytes)
    → entry_of (resolve_in cs name arch) ≡ first_offer cs name arch
unfolding resolve_in
resolve_in_lem cs name arch =
    resolve_from-offer (entries_of cs) cs name arch
    ∙ or_later_self (first_offer cs name arch) (entry_of (resolve_entry (entries_of cs) name arch))
        (λ h. entry_of-resolve_entry (entries_of cs) name arch ∙ entries_of-offer cs name arch h)
