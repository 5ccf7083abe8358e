-- ===== src/Go/Map.antt =====
-- Go's map[string]V, for reads, writes and deletes. `none` is the nil map: it reads as empty, and a
-- write to it panics. The list has the entries in some order; Go promises none.
use datafuse_operator.Prelude.{
  String, ◌≡◌, refl, false, is_some, Bool, Option, none, some, List, [], ◌∷◌, ◌==◌, eq_iff,
  if◌then◌else◌, arith, ◌||◌,
}

abbrev pub Entries {ℓ} : Type ℓ → Type ℓ
Entries V = List (String × V)

abbrev pub GoMap {ℓ} : Type ℓ → Type ℓ
GoMap V = Option (Entries V)

module _ {ℓ} {V : Type ℓ} where
  -- `v, found := m[k]`
  unfoldable pub lookup : String → Entries V → Option V
  lookup key [] = none
  lookup key ((name, value) ∷ rest) = if name == key then some value else lookup key rest

  -- `m[k] = v`
  unfoldable pub insert : String → V → Entries V → Entries V
  insert key new [] = (key, new) ∷ []
  insert key new ((name, value) ∷ rest) =
      if name == key then (key, new) ∷ rest else (name, value) ∷ insert key new rest

  -- `delete(m, k)`
  unfoldable pub erase : String → Entries V → Entries V
  erase key [] = []
  erase key ((name, value) ∷ entries) =
      let rest = erase key entries in if name == key then rest else (name, value) ∷ rest

  -- `v, found := m[k]`, where m may be nil
  unfoldable pub get : String → GoMap V → Option V
  unfolding lookup
  get k none = none
  get k (some m) = lookup k m

  -- `if m == nil { m = make(...) }; m[k] = v`
  unfoldable pub put : String → V → GoMap V → GoMap V
  unfolding insert
  put k v none = some ((k, v) ∷ [])
  put k v (some m) = some (insert k v m)

  unfoldable pub keys : Entries V → List String
  keys [] = []
  keys ((k, _) ∷ m) = k ∷ keys m

  pub lookup-insert :
      (key other : String) (new : V) (entries : Entries V)
      → lookup other (insert key new entries)
        ≡ (if key == other then some new else lookup other entries)
  unfolding insert lookup
  lookup-insert key other new [] = refl
  lookup-insert key other new ((name, value) ∷ rest) = ground (
    arith,
    lookup-insert key other new rest,
    eq_iff name key,
    eq_iff name other,
    eq_iff key other,
  )

  pub lookup-erase :
      (key other : String) (entries : Entries V)
      → lookup other (erase key entries) ≡ (if key == other then none else lookup other entries)
  unfolding erase lookup
  lookup-erase key other [] = ground arith
  lookup-erase key other ((name, value) ∷ rest) =
      ground
        (arith, lookup-erase key other rest, eq_iff name key, eq_iff name other, eq_iff key other)

  pub get-put :
      (k j : String) (v : V) (m : GoMap V)
      → get j (put k v m) ≡ (if k == j then some v else get j m)
  unfolding get put
  get-put k j v none = refl
  get-put k j v (some m) = lookup-insert k j v m

-- Is there an entry of a key?
abbrev pub has {ℓ} : {V : Type ℓ} → Entries V → String → Bool
has m k = is_some (lookup k m)

pub has-insert {ℓ} :
    {V : Type ℓ} (k j : String) (v : V) (m : Entries V)
    → has (insert k v m) j ≡ ((k == j) || has m j)
has-insert k j v m = ground (arith, lookup-insert k j v m)

-- A key stands in a map once.
abbrev pub NodupKeys {ℓ} : {V : Type ℓ} → Entries V → Type 0
NodupKeys [] = Unit
NodupKeys ((k, _) ∷ m) = (is_some (lookup k m) ≡ false) × NodupKeys m
