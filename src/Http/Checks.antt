-- ===== src/Http/Checks.antt =====
-- The check for forbidden fields, which the frame reader and ReadResponse both make.
use spdy.Base.{
  ℕ, subst, ◌≡◌, refl, sym, ap, ◌∙◌, inl, inr, Bool-cases, bytes_eq_sound, Bytes, Bool, true, false,
  ◌||◌, Option, none, some, List, [], ◌∷◌, bytes_eq, bytes_eq_comm, arith,
}
use spdy.Header.{Header, values_of}
use spdy.Framer.Read.{has_invalid, is_listed, invalid_resp_headers}
use spdy.Base.Int.{ℤ}
use spdy.Base.Text.{codes}
use spdy.Http.{Net, Problem, Parsed, parsed, failed, bad_field, bad_content_length}
use spdy.Http.Exchange.{IsLength, either-IsLength, parse_content_length-IsLength}
use spdy.Http.Answers.{fix_length-IsLength}
use spdy.Http.Answer.{
  Answer, bad_resp_header_fields, first_bad, built, sized, with_version, with_code, unless_bad,
  read_response,
}

abbrev is_found : Option Bytes → Bool
is_found none = false
is_found (some n) = true

abbrev has_field : Bytes → Header → Bool
has_field n h = elim (values_of n h) [ none ↦ false | some vs ↦ true ]

bytes_eq-swap : (a b : Bytes) → bytes_eq a b ≡ bytes_eq b a
bytes_eq-swap a b = elim (Bool-cases (bytes_eq a b)) [
  | inl e ↦
      ap (λ x. bytes_eq a x) (sym (bytes_eq_sound a b e))
      ∙ ap (λ x. bytes_eq x a) (bytes_eq_sound a b e)
  | inr e ↦ e ∙ sym (bytes_eq_comm a b e)
]

has_invalid-has_field : (n : Bytes) (h : Header) → has_invalid (n ∷ []) h ≡ has_field n h
unfolding has_invalid is_listed values_of
has_invalid-has_field n [] = refl
has_invalid-has_field n ((k, vs) ∷ h) =
    rw (← bytes_eq-swap k n) (ground (arith, has_invalid-has_field n h))

has_invalid-cons :
    (n : Bytes) (ns : List Bytes) (h : Header)
    → has_invalid (n ∷ ns) h ≡ (has_invalid (n ∷ []) h || has_invalid ns h)
unfolding has_invalid is_listed
has_invalid-cons n ns [] = refl
has_invalid-cons n ns ((k, vs) ∷ h) = ground (arith, has_invalid-cons n ns h)

has_invalid-nothing : (h : Header) → has_invalid [] h ≡ false
unfolding has_invalid is_listed
has_invalid-nothing [] = refl
has_invalid-nothing ((k, vs) ∷ h) = has_invalid-nothing h

is_found-first_bad :
    (n : Bytes) (ns : List Bytes) (h : Header)
    → (has_field n h || is_found (first_bad ns h)) ≡ is_found (first_bad (n ∷ ns) h)
unfolding first_bad
is_found-first_bad n ns h = ground arith

has_invalid-first_bad :
    (ns : List Bytes) (h : Header) → has_invalid ns h ≡ is_found (first_bad ns h)
unfolding first_bad
has_invalid-first_bad [] h = has_invalid-nothing h
has_invalid-first_bad (n ∷ ns) h =
    has_invalid-cons n ns h
    ∙ ap (λ b. b || has_invalid ns h) (has_invalid-has_field n h)
    ∙ ap (λ b. has_field n h || b) (has_invalid-first_bad ns h)
    ∙ is_found-first_bad n ns h

-- Whether a field is what ReadResponse complains of.
abbrev pub is_refused : Parsed Answer → Bool
is_refused (parsed a) = false
is_refused (failed (bad_field n)) = true
is_refused (failed e) = false

module _ (net : Net) (h : Header) (t : Option Header) (r : Option ℕ) (method : Bytes) where
  length_refused :
      (x : Parsed ℤ) → IsLength x → (e : Problem) → x ≡ failed e → is_refused (failed e) ≡ false
  length_refused x (inl (n, same)) e h = cc
  length_refused x (inr (cl, same)) e h =
      let is : bad_content_length cl ≡ e = cc in subst (λ y. is_refused (failed y) ≡ false) is refl

  built_refused :
      (code : ℤ) (version : ℕ × ℕ) (header : Header) (n : ℤ) (m : Parsed ℤ)
      → IsLength m
      → is_refused (built h t r code version header n m) ≡ false
  built_refused code version header n (parsed m) v = refl
  built_refused code version header n (failed e) v = length_refused (failed e) v e refl

  sized_refused :
      (code : ℤ) (version : ℕ × ℕ) (y : Parsed ℤ × Header)
      → IsLength y.0
      → is_refused (sized net h t r method code version y) ≡ false
  sized_refused code version (failed e, header) v = length_refused (failed e) v e refl
  sized_refused code version (parsed n, header) v = built_refused code version header n _ (
      either-IsLength (bytes_eq method (codes "HEAD")) _ _ (parse_content_length-IsLength net _)
        (inl (n, refl)))

  version_refused :
      (code : ℤ) (version : Option (ℕ × ℕ))
      → is_refused (with_version net h t r method code version) ≡ false
  version_refused code none = refl
  version_refused code (some v) =
      sized_refused code v _ (fix_length-IsLength net true code method _)

  code_refused : (code : Option ℤ) → is_refused (with_code net h t r method code) ≡ false
  code_refused none = refl
  code_refused (some code) = version_refused code _

  bad_refused : (b : Option Bytes) → is_refused (unless_bad net h t r method b) ≡ is_found b
  bad_refused none = code_refused _
  bad_refused (some n) = refl

  -- ReadResponse complains of a forbidden field exactly of those headers that have one by the frame
  -- reader's check of a SYN_REPLY, which has a list of its own and looks for it the other way round.
  pub read_response-has_invalid :
      is_refused (read_response net h t r method) ≡ has_invalid invalid_resp_headers h
  unfolding read_response
  read_response-has_invalid =
      bad_refused (first_bad bad_resp_header_fields h)
      ∙ sym (has_invalid-first_bad bad_resp_header_fields h)
