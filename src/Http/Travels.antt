-- ===== src/Http/Travels.antt =====
-- A request from RequestFramingHeader of request.go over the connection to ReadRequest.
use spdy.Base.{
  ℕ, ◌≡◌, ◌≢◌, ◌⊎◌, ◌+◌, ◌≤◌, refl, ap, sym, ◌∙◌, Bytes, Bool, true, false, Option, none, some, [],
  ◌++◌, append-nil, bit_and, bit_or, subst, drop, drop-append, length, le→leb, if◌then◌else◌, arith,
}
use spdy.Stdlib.{Stdlib}
use spdy.Wire.{Result, ok}
use spdy.Header.{Header, to_lower}
use spdy.Frame.{Frame, SynStreamFrame, syn_stream}
use spdy.Framer.{Framer}
use spdy.Framer.Write.{write_frame}
use spdy.Framer.Read.{read_frame, has_invalid, invalid_req_headers}
use spdy.Framer.Encoding.{IsU8, IsU24, IsU32, block_bytes}
use spdy.Framer.Decode.{ahead}
use spdy.Framer.Block.RoundTrip.{IsHeader}
use spdy.Framer.RoundTrip.{wire, IsWire, IsPlain}
use spdy.Framer.RoundTrip.Sends.{write_fits}
use spdy.Framer.RoundTrip.Receives.{wire-Reads}
use spdy.Session.{control_flag_fin, control_flag_unidirectional}
use spdy.Session.Calls.{open_frame}
use spdy.Http.{Net, Parsed, parsed, failed, bad_content_length}
use spdy.Http.Framing.{Outgoing, framing_fields, request_framing_header, missing_body, positive, or}
use spdy.Http.Request
use spdy.Http.Request.{read_request, path_problem}
use spdy.Http.Exchange.{Arrives, read_request-request_framing_header}
use spdy.Base.Text.{codes}

module _ (std : Stdlib) (net : Net) where
  abbrev pub flag_of : Bool → ℕ
  flag_of b = if b then 0 else control_flag_fin

  -- What ReadRequest makes of the frame that is read.
  abbrev pub Comes :
      Outgoing → Option Header → Option ℕ → Framer std → Result Frame × Framer std → Type 0
  Comes r t p g x =
      (u : SynStreamFrame) × (x ≡ (ok (syn_stream u), ahead std g []))
      × (((q : Request.Request) × (read_request net u.headers t p ≡ parsed q) × Arrives r q)
          ⊎ ((cl : Bytes) × (read_request net u.headers t p ≡ failed (bad_content_length cl))))

  small_flag :
      (b : Bool) → IsU8 (bit_and (flag_of b) (bit_or control_flag_unidirectional control_flag_fin))
  small_flag true = omega arith
  small_flag false = omega arith

  abbrev Read : Option Header → Option ℕ → Outgoing → Header → Type 0
  Read t p r h =
      (has_invalid invalid_req_headers h ≡ false)
      × (((q : Request.Request) × (read_request net h t p ≡ parsed q) × Arrives r q)
          ⊎ ((cl : Bytes) × (read_request net h t p ≡ failed (bad_content_length cl))))

  -- The header of a request, and that its frame is read as it was written.
  framed-Tells :
      (r : Outgoing) (t : Option Header) (p : Option ℕ) (version : ℕ × ℕ)
      → missing_body r (positive r.content_length) ≡ none
      → path_problem r.uri ≡ none
      → net.parse_version (or r.proto (codes "HTTP/1.1")) ≡ some version
      → let h = framing_fields r in
        (request_framing_header r ≡ parsed (h, flag_of r.has_body)) × Read t p r h
  unfolding request_framing_header
  framed-Tells r t p version b path v =
      let made : request_framing_header r ≡ parsed (framing_fields r, flag_of r.has_body) =
        rw b refl in
      let (h, e, allowed, comes) = read_request-request_framing_header net r t p version b path v in
      let same : h ≡ framing_fields r = ap header_of (sym e ∙ made) in
      let rest = subst (Read t p r) same (allowed, comes) in (made, rest)
    where
      header_of : Parsed (Header × ℕ) → Header
      header_of (parsed (h, flag)) = h
      header_of (failed e) = []

  -- A request with a body if it has a length, whose path starts with a slash and whose version is one,
  -- with a header that fits the wire and whose fields come back from it, having canonical names that
  -- differ and values without zero bytes. RequestFramingHeader makes a header of it, and the SYN_STREAM
  -- frame with that, written without header compression on a connection with room, is read at the other
  -- end; from the header read there, ReadRequest gets a request with the same method, path, scheme, host
  -- and version, defaults filled in, or complains of the Content-Length alone.
  pub request_travels :
      (r : Outgoing) (t : Option Header) (p : Option ℕ) (version : ℕ × ℕ) (id : ℕ)
      (f g : Framer std)
      → missing_body r (positive r.content_length) ≡ none
      → path_problem r.uri ≡ none
      → net.parse_version (or r.proto (codes "HTTP/1.1")) ≡ some version
      → IsHeader std.unicode_lower (framing_fields r)
      → IsU24 (length (block_bytes (to_lower std.unicode_lower) (framing_fields r)) + 10)
      → IsU32 (length (framing_fields r))
      → id ≢ 0
      → IsU32 id
      → IsPlain std f
      → IsPlain std g
      → length (wire std.unicode_lower (open_frame id (framing_fields r) (flag_of r.has_body)))
        ≤ f.room
      → (h : Header) × (flag : ℕ) × (request_framing_header r ≡ parsed (h, flag))
        × (let (x, f') = write_frame std (open_frame id h flag) f in
            (x ≡ ok tt) × Comes r t p g (read_frame std (ahead std g (drop (length f.out) f'.out))))
  request_travels r t p version id f g b path v back block count some_id id_fits plain plain' room =
      let h = framing_fields r in
      let flag = flag_of r.has_body in
      let (made, (allowed, arrives)) = framed-Tells r t p version b path v in
      let fr : Frame = open_frame id h flag in
      let bs : Bytes = wire std.unicode_lower fr in
      let fit : IsWire std.unicode_lower fr = (
        some_id,
        id_fits,
        omega arith,
        omega arith,
        omega arith,
        small_flag r.has_body,
        record { comes_back = back; allowed = allowed; block_fits = block; count_fits = count },
      ) in
      let (u, read, is) = wire-Reads std fr g fit plain' (ahead std g (bs ++ [])) [] refl in
      (
        h,
        flag,
        made,
        rw (write_fits std fr f fit plain (le→leb _ _ room)) (
          refl,
          rw (drop-append (length f.out) f.out bs refl, ← append-nil bs)
              (rw (read, is) (_, refl, arrives)),
        ),
      )
