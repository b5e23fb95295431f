-- ===== src/Header/Entries.antt =====
-- Adding the values of one field to a header.
use spdy.Base.{
  ◌≡◌, refl, Bytes, true, false, none, some, List, [], ◌∷◌, ◌++◌, bytes_eq, bytes_eq_refl,
  bytes_eq_sound, append_assoc, append-nil, arith, Bool-cases, inl, inr,
}
use spdy.Header.{Header, values_of, append_value, add, add_all, canonical_key, to_lower}
use spdy.Header.Names.{IsName, name_of_lower}

append_value-new :
    (key v : Bytes) (h : Header)
    → values_of key h ≡ none
    → append_value key v h ≡ h ++ (key, v ∷ []) ∷ []
unfolding values_of append_value
append_value-new key v [] e = refl
append_value-new key v ((k, vs) ∷ h) e = ground (arith, append_value-new key v h)

append_value-old :
    (key v : Bytes) (us : List Bytes) (h : Header)
    → values_of key h ≡ none
    → append_value key v (h ++ (key, us) ∷ []) ≡ h ++ (key, us ++ v ∷ []) ∷ []
unfolding values_of append_value
append_value-old key v us [] e = rw (bytes_eq_refl key)
append_value-old key v us ((k, vs) ∷ h) e = ground (arith, append_value-old key v us h)

add_all-old :
    (name key : Bytes) (vs us : List Bytes) (h : Header)
    → canonical_key name ≡ key
    → values_of key h ≡ none
    → add_all name vs (h ++ (key, us) ∷ []) ≡ h ++ (key, us ++ vs) ∷ []
unfolding add_all add
add_all-old name key [] us h c e = rw (append-nil us)
add_all-old name key (v ∷ vs) us h c e = rw (
  c,
  append_value-old key v us h e,
  add_all-old name key vs (us ++ v ∷ []) h c e,
  append_assoc us (v ∷ []) vs,
)

-- The values of a field that the header does not have yet become its last entry.
pub add_all-new :
    (name key v : Bytes) (vs : List Bytes) (h : Header)
    → canonical_key name ≡ key
    → values_of key h ≡ none
    → add_all name (v ∷ vs) h ≡ h ++ (key, v ∷ vs) ∷ []
unfolding add_all add
add_all-new name key v vs h c e =
    rw (c, append_value-new key v h e) (add_all-old name key vs (v ∷ []) h c e)

module _ (unicode_lower : Bytes → Bytes) where
  abbrev pub Names : Header → Type 0
  Names [] = Unit {0}
  Names ((k, vs) ∷ h) = IsName unicode_lower k × Names h

  -- Among canonical names the lower case of a name is missing with the name.
  pub values_of-lower :
      (name : Bytes) (h : Header)
      → IsName unicode_lower name
      → Names h
      → values_of name h ≡ none
      → values_of (to_lower unicode_lower name) h ≡ none
  unfolding values_of
  values_of-lower name [] n ns e = refl
  values_of-lower name ((k, vs) ∷ h) n (nk, ns) e = elim (Bool-cases (bytes_eq k name)) [
    | inl same ↦ absurd (present same)
    | inr other ↦ elim (Bool-cases (bytes_eq k (to_lower unicode_lower name))) [
      | inl hit ↦ absurd (mixed other (bytes_eq_sound _ _ hit))
      | inr miss ↦ rw miss (values_of-lower name h n ns (rw other at e))
    ]
  ]
    where
      present : bytes_eq k name ≡ true → ⊥
      present same = let found : some vs ≡ none = rw same at e in cc

      mixed : bytes_eq k name ≡ false → k ≡ to_lower unicode_lower name → ⊥
      mixed other hit =
          let same = name_of_lower unicode_lower k name nk n hit in
          let equal : bytes_eq k name ≡ true = rw same (bytes_eq_refl name) in cc
