-- ===== src/Http/Fields.antt =====
-- What reads and the framing layer find in the header that RequestFramingHeader of request.go makes.
use spdy.Base.{
  ℕ, ◌≡◌, refl, ◌∙◌, subst, Bytes, Bool, true, false, not, ◌&&◌, Option, none, some, List, [], ◌∷◌,
  bytes_eq, bytes_eq_sound, bytes_eq_comm, if◌then◌else◌, Bool-cases, inl, inr, arith,
}
use spdy.Base.Text.{codes}
use spdy.Header.{Header, values_of, canonical_key, is_token, is_token_byte, capitalise, contains}
use spdy.Framer.Read.{has_invalid, is_listed}
use spdy.Http.{get, set, del, put_values, drop_values}
use spdy.Http.Framing.{
  Outgoing, bad_req_header_fields, or, with_agent, with_fields, with_length, positive, ordinary,
  drop_all, framing_fields,
}

pub values_of-put_values :
    (k key : Bytes) (vs : List Bytes) (h : Header)
    → values_of k (put_values key vs h) ≡ (if bytes_eq key k then some vs else values_of k h)
unfolding values_of put_values
values_of-put_values k key vs [] = refl
values_of-put_values k key vs ((n, ws) ∷ h) = elim (Bool-cases (bytes_eq n key)) [
  | inl e ↦ let same : n ≡ key = bytes_eq_sound n key e in rw (e, same) (ground arith)
  | inr e ↦
      let clash : bytes_eq key k ≡ true → bytes_eq n k ≡ false =
        λ f. subst (λ x. bytes_eq n x ≡ false) (bytes_eq_sound key k f) e in
      rw e (ground (arith, clash, values_of-put_values k key vs h))
]

pub values_of-drop_values :
    (k key : Bytes) (h : Header)
    → values_of k (drop_values key h) ≡ (if bytes_eq key k then none else values_of k h)
unfolding values_of drop_values
values_of-drop_values k key [] = ground arith
values_of-drop_values k key ((n, ws) ∷ h) = elim (Bool-cases (bytes_eq n key)) [
  | inl e ↦
      let same : n ≡ key = bytes_eq_sound n key e in
      rw (e, same) (ground (arith, values_of-drop_values k key h))
  | inr e ↦
      let clash : bytes_eq key k ≡ true → bytes_eq n k ≡ false =
        λ f. subst (λ x. bytes_eq n x ≡ false) (bytes_eq_sound key k f) e in
      rw e (ground (arith, clash, values_of-drop_values k key h))
]

-- A field other than the one that is set or deleted.
pub get-set_other :
    (a b v : Bytes) (h : Header)
    → bytes_eq (canonical_key b) (canonical_key a) ≡ false
    → get a (set b v h) ≡ get a h
unfolding get set
get-set_other a b v h e =
    rw (values_of-put_values (canonical_key a) (canonical_key b) (v ∷ []) h) (rw e refl)

pub get-set_same :
    (a v : Bytes) (h : Header)
    → bytes_eq (canonical_key a) (canonical_key a) ≡ true
    → get a (set a v h) ≡ v
unfolding get set
get-set_same a v h e =
    rw (values_of-put_values (canonical_key a) (canonical_key a) (v ∷ []) h) (rw e refl)

pub get-del_other :
    (a b : Bytes) (h : Header)
    → bytes_eq (canonical_key b) (canonical_key a) ≡ false
    → get a (del b h) ≡ get a h
unfolding get del
get-del_other a b h e = rw (values_of-drop_values (canonical_key a) (canonical_key b) h) (rw e refl)

-- None of the names is the name that is read.
abbrev apart : List Bytes → Bytes → Bool
apart [] name = true
apart (n ∷ ns) name = not (bytes_eq n name) && apart ns name

get-drop_all :
    (a : Bytes) (ns : List Bytes) (h : Header)
    → apart ns (canonical_key a) ≡ true
    → get a (drop_all ns h) ≡ get a h
unfolding get drop_all
get-drop_all a [] h e = refl
get-drop_all a (n ∷ ns) h e =
    let miss : bytes_eq n (canonical_key a) ≡ false = ground (arith, e) in
    let rest : apart ns (canonical_key a) ≡ true = ground (arith, e) in
    get-drop_all a ns (drop_values n h) rest
    ∙ rw (values_of-drop_values (canonical_key a) n h) (rw miss refl)

-- A list of names that have all been deleted.
drop_values-keeps_out :
    (ns : List Bytes) (n : Bytes) (h : Header)
    → has_invalid ns h ≡ false
    → has_invalid ns (drop_values n h) ≡ false
unfolding has_invalid drop_values
drop_values-keeps_out ns n [] e = e
drop_values-keeps_out ns n ((k, vs) ∷ h) e = ground (arith, e, drop_values-keeps_out ns n h)

drop_all-keeps_out :
    (ms ns : List Bytes) (h : Header)
    → has_invalid ns h ≡ false
    → has_invalid ns (drop_all ms h) ≡ false
unfolding drop_all
drop_all-keeps_out [] ns h e = e
drop_all-keeps_out (m ∷ ms) ns h e =
    drop_all-keeps_out ms ns (drop_values m h) (drop_values-keeps_out ns m h e)

drop_values-out : (n : Bytes) (h : Header) → has_invalid (n ∷ []) (drop_values n h) ≡ false
unfolding has_invalid is_listed drop_values
drop_values-out n [] = refl
drop_values-out n ((k, vs) ∷ h) = elim (Bool-cases (bytes_eq k n)) [
  | inl e ↦ rw e (drop_values-out n h)
  | inr e ↦
      let turned : bytes_eq n k ≡ false = bytes_eq_comm k n e in
      rw e (ground (arith, turned, drop_values-out n h))
]

has_invalid-cons :
    (n : Bytes) (ns : List Bytes) (h : Header)
    → has_invalid (n ∷ []) h ≡ false
    → has_invalid ns h ≡ false
    → has_invalid (n ∷ ns) h ≡ false
unfolding has_invalid is_listed
has_invalid-cons n ns [] d e = refl
has_invalid-cons n ns ((k, vs) ∷ h) d e = ground (arith, d, e, has_invalid-cons n ns h)

none_invalid : (h : Header) → has_invalid [] h ≡ false
unfolding has_invalid is_listed
none_invalid [] = refl
none_invalid ((k, vs) ∷ h) = none_invalid h

pub drop_all-out : (ns : List Bytes) (h : Header) → has_invalid ns (drop_all ns h) ≡ false
unfolding drop_all
drop_all-out [] h = none_invalid h
drop_all-out (n ∷ ns) h =
    has_invalid-cons n ns (drop_all ns (drop_values n h))
      (drop_all-keeps_out ns (n ∷ []) (drop_values n h) (drop_values-out n h))
      (drop_all-out ns (drop_values n h))

pub has_invalid-swap :
    (a b : Bytes) (ns : List Bytes) (h : Header)
    → has_invalid (a ∷ b ∷ ns) h ≡ has_invalid (b ∷ a ∷ ns) h
unfolding has_invalid is_listed
has_invalid-swap a b ns [] = refl
has_invalid-swap a b ns ((k, vs) ∷ h) = ground (arith, has_invalid-swap a b ns h)

get-with_length :
    (a : Bytes) (r : Outgoing) (o : Option ℕ) (h : Header)
    → bytes_eq (canonical_key (codes "Content-Length")) (canonical_key a) ≡ false
    → get a (with_length r o h) ≡ get a h
get-with_length a r (some n) h e = get-set_other a (codes "Content-Length") _ h e
get-with_length a r none h e =
    elim (Bool-cases (bytes_eq r.method (codes "POST") && not r.has_body)) [
      | inl c ↦ rw c (get-set_other a (codes "Content-Length") _ h e)
      | inr c ↦ rw c refl
    ]

-- The fields of the framing layer that a reader of the header gets.
pub record Tells (r : Outgoing) (h : Header) : Type 0 where
  pub method : get (codes ":method") h ≡ r.method
  pub path : get (codes ":path") h ≡ r.uri
  pub scheme : get (codes ":scheme") h ≡ or r.scheme (codes "http")
  pub host : get (codes ":host") h ≡ or r.host r.url_host
  pub version : get (codes ":version") h ≡ or r.proto (codes "HTTP/1.1")

pub framing_fields-Tells : (r : Outgoing) → Tells r (framing_fields r)
unfolding canonical_key is_token is_token_byte contains capitalise bytes_eq
framing_fields-Tells r = record {
  method =
      outer (codes ":method") refl refl
      ∙ get-set_other _ _ _ _ refl
      ∙ get-set_other _ _ _ _ refl
      ∙ get-set_other _ _ _ _ refl
      ∙ get-set_other _ _ _ _ refl
      ∙ get-set_same _ _ _ refl;
  path =
      outer (codes ":path") refl refl
      ∙ get-set_other _ _ _ _ refl
      ∙ get-set_other _ _ _ _ refl
      ∙ get-set_other _ _ _ _ refl
      ∙ get-set_same _ _ _ refl;
  scheme =
      outer (codes ":scheme") refl refl
      ∙ get-set_other _ _ _ _ refl
      ∙ get-set_other _ _ _ _ refl
      ∙ get-set_same _ _ _ refl;
  host = outer (codes ":host") refl refl ∙ get-set_other _ _ _ _ refl ∙ get-set_same _ _ _ refl;
  version = outer (codes ":version") refl refl ∙ get-set_same _ _ _ refl;
}
  where
    inner : Header
    inner = with_fields r (with_agent (ordinary r.header))

    outer :
        (a : Bytes)
        → apart bad_req_header_fields (canonical_key a) ≡ true
        → bytes_eq (canonical_key (codes "Content-Length")) (canonical_key a) ≡ false
        → get a (framing_fields r) ≡ get a inner
    outer a far other =
        get-drop_all a bad_req_header_fields _ far
        ∙ get-with_length a r (positive r.content_length) inner other
