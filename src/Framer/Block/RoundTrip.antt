-- ===== src/Framer/Block/RoundTrip.antt =====
-- The header block: what `writeHeaderValueBlock` of spdyframing/write.go writes, and that
-- `parseHeaderValueBlock` of spdyframing/read.go reads it back, from any reader.
use spdy.Base.{
  ℕ, ◌≡◌, ◌≢◌, refl, sym, subst, ◌∙◌, Bytes, false, Option, none, some, List, [], ◌∷◌, ◌++◌, length,
  append_assoc, append-nil, bytes_eq, bytes_eq_refl, bytes_eq_comm, Bool-cases, inl, inr, arith,
}
use spdy.Errors.{Error}
use spdy.Wire.{Action, be32}
use spdy.Wire.Laws.{number-be32}
use spdy.Wire.Reads.{Reads, return-Reads, bind-Reads, last-Reads}
use spdy.Header.{Header, to_lower, values_of, join}
use spdy.Header.Names.{IsName, length-to_lower, to_lower_twice}
use spdy.Header.Entries.{Names, add_all-new, values_of-lower}
use spdy.Header.Values.{Plain, split-join}
use spdy.Framer.Block.{
  name_error, read_string, read_entry, read_entries, parse_header_value_block, write_entries,
  write_header_value_block,
}
use spdy.Framer.Encoding.{entry_bytes, entries_bytes, block_bytes, IsU32}

module _ (unicode_lower : Bytes → Bytes) where
  abbrev low : Bytes → Bytes
  low = to_lower unicode_lower

  -- A field that comes back as it was: a canonical ASCII name, at least one value and no NUL byte
  -- in the values, and lengths that fit.
  pub record IsField (name : Bytes) (values : List Bytes) : Type 0 where
    pub canonical : IsName unicode_lower name
    pub some_value : values ≢ []
    pub plain : Plain values
    pub name_fits : IsU32 (length name)
    pub values_fit : IsU32 (length (join values))

  -- No name of `h` is in `g`; the names of `h` differ; every field comes back.
  abbrev pub Apart : Header → Header → Type 0
  Apart g [] = Unit {0}
  Apart g ((name, _) ∷ h) = (values_of name g ≡ none) × Apart g h

  abbrev pub IsHeader : Header → Type 0
  IsHeader [] = Unit {0}
  IsHeader ((name, values) ∷ h) = IsField name values × (values_of name h ≡ none) × IsHeader h

  Apart-nil : (h : Header) → Apart [] h
  unfolding values_of
  Apart-nil [] = tt
  Apart-nil ((name, _) ∷ h) = (refl, Apart-nil h)

  values_of-append :
      (name key : Bytes) (values : List Bytes) (g : Header)
      → values_of name g ≡ none
      → bytes_eq key name ≡ false
      → values_of name (g ++ (key, values) ∷ []) ≡ none
  unfolding values_of
  values_of-append name key values [] e h = rw h
  values_of-append name key values ((k, vs) ∷ g) e h =
      ground (arith, values_of-append name key values g)

  -- Names that are neither in `g` nor `key` are not in `g` with `key` added.
  Apart-append :
      (key : Bytes) (values : List Bytes) (g h : Header)
      → Apart g h
      → values_of key h ≡ none
      → Apart (g ++ (key, values) ∷ []) h
  unfolding values_of
  Apart-append key values g [] a e = tt
  Apart-append key values g ((name, vs) ∷ h) (new, a) e = elim (Bool-cases (bytes_eq name key)) [
    | inl same ↦ absurd (let found : some vs ≡ none = rw same at e in cc)
    | inr other ↦ (
      values_of-append name key values g new (bytes_eq_comm name key other),
      Apart-append key values g h a (rw other at e),
    )
  ]

  Names-append :
      (g : Header) (name : Bytes) (values : List Bytes)
      → Names unicode_lower g
      → IsName unicode_lower name
      → Names unicode_lower (g ++ (name, values) ∷ [])
  Names-append [] name values ns n = (n, tt)
  Names-append ((k, vs) ∷ g) name values (nk, ns) n = (nk, Names-append g name values ns n)

  write_entries_bytes :
      (h : Header) (n : ℕ) (w : Bytes)
      → (write_entries unicode_lower (λ bs v. v ++ bs) h (n, w)).1 ≡ w ++ entries_bytes low h
  unfolding write_entries
  write_entries_bytes [] n w = sym (append-nil w)
  write_entries_bytes ((name, values) ∷ h) n w = write_entries_bytes h _ _ ∙ simp append_assoc

  -- A block is written as its layout, behind what the buffer held.
  pub write_header_value_block_bytes :
      (h : Header) (w : Bytes)
      → (write_header_value_block unicode_lower (λ bs v. v ++ bs) h w).1 ≡ w ++ block_bytes low h
  unfolding write_header_value_block
  write_header_value_block_bytes h w =
      write_entries_bytes h 2 (w ++ be32 (length h)) ∙ append_assoc w (be32 (length h)) _

  module _ {S : Type 0} (View : S → Bytes → Type 0) (read_block : ℕ → Action S Bytes)
      (reads : (n : ℕ) (bs : Bytes) → length bs ≡ n → Reads View (read_block n) bs bs) where
    string-Reads :
        (n : ℕ) (bs : Bytes)
        → length bs ≡ n
        → IsU32 n
        → Reads View (read_string unicode_lower read_block) (be32 n ++ bs) bs
    unfolding read_string
    string-Reads n bs h k =
        bind-Reads View (read_block 4) _ (be32 n) bs (be32 n) bs (reads 4 (be32 n) refl)
          (rw (number-be32 n k) (reads n bs h))

    name_error-none :
        (id : ℕ) (name : Bytes) (g : Header)
        → IsName unicode_lower name
        → values_of (low name) g ≡ none
        → name_error unicode_lower id (low name) g none ≡ none
    unfolding name_error
    name_error-none id name g n e = rw (
      to_lower_twice unicode_lower name n.0,
      e,
      name_error,
      to_lower_twice unicode_lower name n.0,
      bytes_eq_refl (low name),
    )

    -- One round of the loop adds the field that was written.
    entry-Reads :
        (id : ℕ) (name : Bytes) (values : List Bytes) (g : Header)
        → IsField name values
        → Names unicode_lower g
        → values_of name g ≡ none
        → Reads View
            (read_entry unicode_lower read_block id (g, none))
            (entry_bytes low name values)
            (g ++ (name, values) ∷ [], none)
    unfolding read_entry
    entry-Reads id name [] g v ns e = absurd (v.some_value refl)
    entry-Reads id name (w ∷ ws) g v ns e =
        bind-Reads View (read_string unicode_lower read_block) _ (be32 (length name) ++ low name)
          (be32 (length value) ++ value) (low name) _
          (string-Reads (length name) (low name) (length-to_lower unicode_lower name v.canonical.0)
            v.name_fits)
          (last-Reads View (read_string unicode_lower read_block) _ (be32 (length value) ++ value)
            value _ (string-Reads (length value) value refl v.values_fit)
            (rw
              (
                to_lower_twice unicode_lower name v.canonical.0,
                split-join w ws v.plain,
                add_all-new (low name) name w ws g v.canonical.1 e,
                no_error,
              )
              (return-Reads View _)))
      where
        value : Bytes
        value = join (w ∷ ws)

        no_error : name_error unicode_lower id (low name) g none ≡ none
        no_error =
            name_error-none id name g v.canonical
              (values_of-lower unicode_lower name g v.canonical ns e)

    -- The names of `g` and of `h`, all different, may be read one after the other.
    abbrev Follows : Header → Header → Type 0
    Follows g h = Names unicode_lower g × Apart g h × IsHeader h

    entries-Reads :
        (id : ℕ) (h g : Header)
        → Follows g h
        → Reads View
            (read_entries unicode_lower read_block id (length h) (g, none))
            (entries_bytes low h)
            (g ++ h, none)
    unfolding read_entries
    entries-Reads id [] g v = rw (append-nil g) (return-Reads View (g, none))
    entries-Reads id ((name, values) ∷ h) g (ns, (new, apart), (field, other, hs)) =
        bind-Reads View (read_entry unicode_lower read_block id (g, none)) _
          (entry_bytes low name values) (entries_bytes low h) (g ++ (name, values) ∷ [], none) _
          (entry-Reads id name values g field ns new)
          (subst
            (λ (r : Header).
              Reads View {A = Header × Option Error}
                (read_entries unicode_lower read_block id (length h)
                  (g ++ (name, values) ∷ [], none))
                (entries_bytes low h) (r, none))
            (append_assoc g ((name, values) ∷ []) h)
            (entries-Reads id h (g ++ (name, values) ∷ []) (
              Names-append g name values ns field.canonical,
              Apart-append name values g h apart other,
              hs,
            )))

    -- The block of a header that is fit for the wire is read back as that header.
    pub block-Reads :
        (id : ℕ) (h : Header)
        → IsHeader h
        → IsU32 (length h)
        → Reads View (parse_header_value_block unicode_lower read_block id) (block_bytes low h) h
    unfolding parse_header_value_block
    block-Reads id h hs fits =
        bind-Reads View (read_block 4) _ (be32 (length h)) (entries_bytes low h) (be32 (length h)) h
          (reads 4 (be32 (length h)) refl)
          (rw (number-be32 (length h) fits) (
            last-Reads View _ _ (entries_bytes low h) (h, none) h
              (entries-Reads id h [] (tt, Apart-nil h, hs)) (return-Reads View h)))
