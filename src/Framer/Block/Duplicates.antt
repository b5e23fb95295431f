-- ===== src/Framer/Block/Duplicates.antt =====
-- The test for duplicate names in `parseHeaderValueBlock` of spdyframing/read.go, which looks for a
-- name in lower case among names in canonical form.
use spdy.Base.{
  ℕ, ◌≡◌, ◌≢◌, refl, sym, ◌∙◌, Bytes, Option, none, [], ◌∷◌, bytes_eq, bytes_eq_refl,
  bytes_eq_sound, Bool-cases, inl, inr,
}
use spdy.Errors.{Error}
use spdy.Header.{Header, to_lower, values_of}
use spdy.Header.Names.{IsName, name_of_lower, to_lower_twice}
use spdy.Header.Entries.{Names}
use spdy.Framer.Block.{name_error}

module _ (unicode_lower : Bytes → Bytes) where
  abbrev low : Bytes → Bytes
  low = to_lower unicode_lower

  values_of-unlike :
      (name : Bytes) (h : Header)
      → IsName unicode_lower name
      → low name ≢ name
      → Names unicode_lower h
      → values_of (low name) h ≡ none
  unfolding values_of
  values_of-unlike name [] n unlike ns = refl
  values_of-unlike name ((k, vs) ∷ h) n unlike (nk, ns) =
      elim (Bool-cases (bytes_eq k (low name))) [
        | inl hit ↦
            let same : k ≡ low name = bytes_eq_sound k (low name) hit in
            absurd (unlike (sym same ∙ name_of_lower unicode_lower k name nk n same))
        | inr miss ↦ rw miss (values_of-unlike name h n unlike ns)
      ]

  -- The test for names passes every name in lower case whose canonical form is another one, in a
  -- header whose names are canonical, even if the header has a field of that name already.
  pub name_error_passes :
      (id : ℕ) (name : Bytes) (h : Header) (e : Option Error)
      → IsName unicode_lower name
      → low name ≢ name
      → Names unicode_lower h
      → name_error unicode_lower id (low name) h e ≡ e
  unfolding name_error
  name_error_passes id name h e n unlike ns = rw (
    to_lower_twice unicode_lower name n.0,
    values_of-unlike name h n unlike ns,
    name_error,
    to_lower_twice unicode_lower name n.0,
    bytes_eq_refl (low name),
  )
