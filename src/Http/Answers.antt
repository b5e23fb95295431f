-- ===== src/Http/Answers.antt =====
-- From the response writer's framingHeader (server.go) to ReadResponse (response.go).
use spdy.Base.{
  List, some-injective, subst, ◌≢◌, ℕ, ◌<◌, ◌^◌, ◌+◌, ◌-◌, ◌*◌, ◌≡◌, ◌⊎◌, refl, sym, ap, ◌∙◌, Bytes,
  Bool, true, false, not, ◌&&◌, ◌||◌, Option, none, some, [], ◌∷◌, ◌++◌, ◌==◌, leb, bytes_eq,
  if◌then◌else◌, Bool-cases, inl, inr, arith,
}
use spdy.Base.Int.{ℤ, pos}
use spdy.Base.Text.{codes}
use spdy.Header.{values_of, Header, canonical_key, is_token, is_token_byte, capitalise, contains}
use spdy.Http.{
  copy_header, put_values, set, del, Net, bad_content_length, bad_field, Parsed, parsed, failed,
  is_empty, get, decimal, parse_int, parse_digits, trim_space,
}
use spdy.Http.Length.{content_length, no_body_expected, is_bodiless, fix_length}
use spdy.Http.Answer.{
  Answer, bad_resp_header_fields, first_bad, before_space, after_space, built, sized, unless_bad,
  read_response,
}
use spdy.Http.Fields.{
  values_of-put_values, values_of-drop_values, get-set_other, get-set_same, get-del_other,
}
use spdy.Http.Exchange.{IsLength, either-IsLength, parse_content_length-IsLength}
use spdy.Http.Decimal.{parse_int-decimal, parse_digits-decimal}
use spdy.Http.Server.{status_line, framing_header}

-- Digits, and then a space.
split_digits :
    (bs s : Bytes) (a n : ℕ)
    → parse_digits a bs ≡ some n
    → (before_space (bs ++ 32 ∷ s) ≡ bs) × (after_space (bs ++ 32 ∷ s) ≡ s)
unfolding parse_digits before_space after_space
split_digits [] s a n e = (refl, refl)
split_digits (c ∷ bs) s a n e = elim (Bool-cases (leb 48 c && leb c 57)) [
  | inl digit ↦
      let other : (c == 32) ≡ false = ground arith in
      let (before, after) = split_digits bs s (a * 10 + (c - 48)) n (sym (rw digit refl) ∙ e) in
      rw other (ap (λ r. c ∷ r) before, after)
  | inr other ↦ absurd (let bad : ◌≡◌ {A = Option ℕ} none (some n) = sym (rw other refl) ∙ e in cc)
]

pub fix_length-IsLength :
    (net : Net) (b : Bool) (status : ℤ) (method : Bytes) (h : Header)
    → IsLength (fix_length net b status method h).0
unfolding fix_length
fix_length-IsLength net b status method h =
    either (no_body_expected method || is_bodiless status) _ _ (inl (_, refl)) (
      either (not (is_empty (trim_space net.unicode_trim (get content_length h)))) _ _
        (parse_content_length-IsLength net _)
        (either (not b && bytes_eq method (codes "GET")) _ _ (inl (_, refl)) (inl (_, refl))))
  where
    either :
        (b : Bool) (x y : Parsed ℤ × Header)
        → IsLength x.0
        → IsLength y.0
        → IsLength (if b then x else y).0
    either true x y v w = v
    either false x y v w = w

-- A field that ReadResponse refuses, and that the response writer does not delete.
abbrev pub IsForbidden : Header → Bytes → Type 0
IsForbidden fields n =
    (values_of n (copy_header [] fields) ≢ none) × (bytes_eq (codes "Connection") n ≡ false)

-- The name is none of those that the response writer sets.
abbrev IsPlain : Bytes → Type 0
IsPlain n =
    (bytes_eq (codes ":status") n ≡ false)
    × (bytes_eq (codes ":version") n ≡ false)
    × (bytes_eq (codes "Content-Type") n ≡ false)

abbrev ArePlain : List Bytes → Type 0
ArePlain [] = Unit {0}
ArePlain (n ∷ ns) = IsPlain n × ArePlain ns

-- What is found is one of the list, and is there.
first_bad_lem :
    (ns : List Bytes) (h : Header) (n : Bytes)
    → ArePlain ns
    → first_bad ns h ≡ some n
    → IsPlain n × (values_of n h ≢ none)
unfolding first_bad
first_bad_lem [] h n v e = cc
first_bad_lem (m ∷ ns) h n (v, vs) e = from (values_of m h) refl e (first_bad_lem ns h n vs)
  where
    from :
        (o : Option (List Bytes))
        → values_of m h ≡ o
        → (elim o [ none ↦ first_bad ns h | some ws ↦ some m ]) ≡ some n
        → (first_bad ns h ≡ some n → IsPlain n × (values_of n h ≢ none))
        → IsPlain n × (values_of n h ≢ none)
    from none d e later = later e
    from (some ws) d e later =
        let same : m ≡ n = some-injective _ _ e in
        subst (λ k. IsPlain k × (values_of k h ≢ none)) same (v, λ none_there. cc)

-- Of the fields that the response writer does not set, it leaves those of the handler but Connection.
values_of-framing_header :
    (net : Net) (code : ℕ) (fields : Header) (n : Bytes)
    → IsPlain n
    → values_of n (framing_header net code fields)
      ≡ (if bytes_eq (codes "Connection") n then none else values_of n (copy_header [] fields))
unfolding framing_header set del canonical_key is_token is_token_byte contains capitalise
values_of-framing_header net code fields n (status, version, ctype) =
    let copied = copy_header [] fields in
    let text = codes "text/plain" ∷ [] in
    values_of-drop_values n (codes "Connection") _
    ∙ ap (λ x. if bytes_eq (codes "Connection") n then none else x)
        (values_of-put_values n (codes ":version") _ _
          ∙ rw version (
              values_of-put_values n (codes ":status") _ _
              ∙ rw status (
                  typed (code == 304) (is_empty (get (codes "Content-Type") copied)) copied
                    (put_values (codes "Content-Type") text copied) refl
                    (values_of-put_values n (codes "Content-Type") text copied ∙ rw ctype refl))))
  where
    typed :
        (b c : Bool) (h k : Header)
        → values_of n h ≡ values_of n h
        → values_of n k ≡ values_of n h
        → values_of n (if b then h else if c then k else h) ≡ values_of n h
    typed true c h k d e = refl
    typed false true h k d e = e
    typed false false h k d e = refl

forbidden :
    (net : Net) (code : ℕ) (fields : Header) (n : Bytes)
    → first_bad bad_resp_header_fields (framing_header net code fields) ≡ some n
    → IsForbidden fields n
unfolding bytes_eq
forbidden net code fields n e =
    let plain : ArePlain bad_resp_header_fields =
      ((refl, refl, refl), ((refl, refl, refl), ((refl, refl, refl), ((refl, refl, refl), tt)))) in
    let (apart, there) =
      first_bad_lem bad_resp_header_fields (framing_header net code fields) n plain e in
    kept (bytes_eq (codes "Connection") n) refl (values_of-framing_header net code fields n apart)
      there
  where
    kept :
        (b : Bool)
        → bytes_eq (codes "Connection") n ≡ b
        → values_of n (framing_header net code fields)
          ≡ (if b then none else values_of n (copy_header [] fields))
        → values_of n (framing_header net code fields) ≢ none
        → IsForbidden fields n
    kept true d same there = absurd (there same)
    kept false d same there = (λ h. there (same ∙ h), d)

module _ (net : Net) (h : Header) (t : Option Header) (r : Option ℕ) (method : Bytes) (code : ℕ)
    (fields : Header) where
  -- What ReadResponse comes to: an answer with this status, or a complaint of a field other than
  -- Connection that a copy of the handler's fields has, or of the Content-Length.
  abbrev pub IsAnswer : Parsed Answer → Type 0
  IsAnswer x =
      ((a : Answer) × (x ≡ parsed a)
        × (a.status_code ≡ pos code)
        × (a.status ≡ status_line net code)
        × (a.trailer ≡ t))
      ⊎ ((n : Bytes) × (x ≡ failed (bad_field n)) × IsForbidden fields n)
      ⊎ ((cl : Bytes) × (x ≡ failed (bad_content_length cl)))

  abbrev HasStatus : Type 0
  HasStatus =
      before_space (get (codes ":status") h) ++ 32 ∷ after_space (get (codes ":status") h)
      ≡ status_line net code

  built-IsAnswer :
      (version : ℕ × ℕ) (header : Header) (n : ℤ) (m : Parsed ℤ)
      → HasStatus
      → IsLength m
      → IsAnswer (built h t r (pos code) version header n m)
  built-IsAnswer version header n (parsed m) w v = inl (_, refl, refl, w, refl)
  built-IsAnswer version header n (failed e) w (inl (m, same)) = cc
  built-IsAnswer version header n (failed e) w (inr (cl, same)) = inr (inr (cl, cc))

  sized-IsAnswer :
      (version : ℕ × ℕ) (y : Parsed ℤ × Header)
      → HasStatus
      → IsLength y.0
      → IsAnswer (sized net h t r method (pos code) version y)
  sized-IsAnswer version (failed e, header) w (inl (m, same)) = cc
  sized-IsAnswer version (failed e, header) w (inr (cl, same)) = inr (inr (cl, cc))
  sized-IsAnswer version (parsed n, header) w v = built-IsAnswer version header n _ w (
      either-IsLength (bytes_eq method (codes "HEAD")) _ _ (parse_content_length-IsLength net _)
        (inl (n, refl)))

framing_header-status :
    (net : Net) (code : ℕ) (header : Header)
    → (get (codes ":status") (framing_header net code header) ≡ status_line net code)
      × (get (codes ":version") (framing_header net code header) ≡ codes "HTTP/1.1")
unfolding framing_header canonical_key is_token is_token_byte contains capitalise bytes_eq
framing_header-status net code header = (
  get-del_other (codes ":status") (codes "Connection") _ refl
      ∙ get-set_other (codes ":status") (codes ":version") _ _ refl
      ∙ get-set_same (codes ":status") _ _ refl,
  get-del_other (codes ":version") (codes "Connection") _ refl
      ∙ get-set_same (codes ":version") _ _ refl,
)

-- Where HTTP/1.1 is a version, ReadResponse gets the status code and the status line from the header
-- that the response writer makes for a code below 2⁶³, whatever the handler's fields; or it complains of
-- a field, by its name, that a copy of the handler's fields has and that is not Connection, which the
-- writer deletes; or of the Content-Length.
pub read_response-IsAnswer :
    (net : Net) (header : Header) (t : Option Header) (r : Option ℕ) (method : Bytes) (code : ℕ)
    (version : ℕ × ℕ)
    → code < 2 ^ 63
    → net.parse_version (codes "HTTP/1.1") ≡ some version
    → IsAnswer net
        (framing_header net code header)
        t
        r
        method
        code
        header
        (read_response net (framing_header net code header) t r method)
unfolding read_response
read_response-IsAnswer net header t r method code version small v =
    from (first_bad bad_resp_header_fields h) refl
  where
    h : Header
    h = framing_header net code header

    text : Bytes
    text =
        if is_empty (net.status_text code)
        then codes "status code " ++ decimal code
        else net.status_text code

    parts :
        (before_space (status_line net code) ≡ decimal code)
        × (after_space (status_line net code) ≡ text)
    parts = split_digits (decimal code) text 0 code (parse_digits-decimal code)

    told :
        (get (codes ":status") h ≡ status_line net code)
        × (get (codes ":version") h ≡ codes "HTTP/1.1")
    told = framing_header-status net code header

    line :
        before_space (get (codes ":status") h) ++ 32 ∷ after_space (get (codes ":status") h)
        ≡ status_line net code
    line = rw (told.0, parts.0, parts.1) refl

    number : parse_int (before_space (get (codes ":status") h)) ≡ some (pos code)
    number = rw (told.0, parts.0) (parse_int-decimal code small)

    known : net.parse_version (get (codes ":version") h) ≡ some version
    known = rw told.1 v

    from :
        (b : Option Bytes)
        → first_bad bad_resp_header_fields h ≡ b
        → IsAnswer net h t r method code header (unless_bad net h t r method b)
    from (some n) e = inr (inl (n, refl, forbidden net code header n e))
    from none e =
        rw (number, known)
          (sized-IsAnswer net h t r method code header version _ line
            (fix_length-IsLength net true (pos code) method _))
