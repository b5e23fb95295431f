-- ===== src/Http/Server.antt =====
-- server.go: a request that comes on a stream, and the writer of its response.
use spdy.Base.{ℕ, Bytes, Bool, true, false, Option, none, some, [], ◌∷◌, ◌++◌, ◌==◌, if◌then◌else◌}
use spdy.Base.Text.{codes}
use spdy.Stdlib.{Stdlib}
use spdy.Wire.{Result, ok, err}
use spdy.Header.{Header}
use spdy.Session.{Session, control_flag_fin, internal_error}
use spdy.Session.Calls
use spdy.Session.Calls.{Sent, reset_stream, reply}
use spdy.Http.{Net, Parsed, parsed, failed, is_empty, get, set, del, copy_header, decimal}
use spdy.Http.Request.{Request, read_request}

abbrev pub refused_stream : ℕ
refused_stream = 3

-- `response`, with its stream's address; `finished` is not used, as in the source.
pub record Response : Type 0 where
  pub stream : ℕ
  pub req : Request
  pub header : Header
  pub wrote_header : Bool
  pub finished : Bool

abbrev pub fields_of : Option Header → Header
fields_of none = []
fields_of (some h) = h

abbrev pub new_response : ℕ → Parsed Request → Parsed Response
new_response p (failed e) = failed e
new_response p (parsed req) =
    parsed (record { stream = p; req = req; header = []; wrote_header = false; finished = false })

abbrev pub status_line : Net → ℕ → Bytes
status_line net code =
    let text = net.status_text code in
    decimal code ++ 32 ∷ (if is_empty text then codes "status code " ++ decimal code else text)

-- `framingHeader(code)`, of a response with these fields and a code that is not negative.
unfoldable pub framing_header : Net → ℕ → Header → Header
framing_header net code header =
    let h = copy_header [] header in
    let typed =
      if code == 304
      then h
      else if is_empty (get (codes "Content-Type") h)
      then set (codes "Content-Type") (codes "text/plain") h
      else h in
    del (codes "Connection") (
      set (codes ":version") (codes "HTTP/1.1")
        (set (codes ":status") (status_line net code) typed))

module _ (std : Stdlib) (net : Net) where
  abbrev S : Type 0
  S = Session std

  -- `readRequest`; `none` while the stream's header is awaited.
  abbrev pub from_header : ℕ → Option (Option Header × S) → Option (Parsed Response × S)
  from_header p none = none
  from_header p (some (h, s)) =
      some (new_response p (read_request net (fields_of h) none (some p)), s)

  unfoldable pub take_request : ℕ → S → Option (Parsed Response × S)
  take_request p s = from_header p (Calls.header std p s)

  -- What follows the call of `Reply`.
  abbrev pub replied : ℕ → Result (Unit {0}) × S → S
  replied p (ok u, s) = s
  replied p (err e, s) = (reset_stream std p internal_error s).1

  -- `writeHeader(code, fin)`
  unfoldable pub write_header_fin : ℕ → Bool → Response × S → Response × S
  write_header_fin code fin (w, s) = if w.wrote_header then (w, s) else (
    record w { wrote_header = true },
    replied w.stream (
        reply std w.stream (framing_header net code w.header) (if fin then control_flag_fin else 0)
          s),
  )

  -- `WriteHeader(code)`
  unfoldable pub write_header : ℕ → Response × S → Response × S
  unfolding write_header_fin
  write_header code x = write_header_fin code false x

  -- `Write(bytes)`, with the fuel that Write of the stream takes; `none` if that runs out.
  abbrev pub written : Response → Option (Sent S) → Option (Response × Sent S)
  written w none = none
  written w (some r) = some (w, r)

  unfoldable pub write : ℕ → Bytes → Response × S → Option (Response × Sent S)
  unfolding write_header
  write fuel bytes (w, s) =
      let (w', s') = if w.wrote_header then (w, s) else write_header 200 (w, s) in
      written w' (Calls.write std fuel w'.stream bytes s')

  -- `finishRequest`
  unfoldable pub finish_request : Response × S → S
  unfolding write_header_fin
  finish_request (w, s) =
      if w.wrote_header
      then (Calls.close std w.stream s).1
      else (write_header_fin 200 true (w, s)).1

  -- What serveStream does with a stream whose request cannot be read.
  unfoldable pub refuse : ℕ → S → S
  refuse p s =
      let s1 = (reply std p ((codes ":status", codes "400" ∷ []) ∷ []) control_flag_fin s).1 in
      (reset_stream std p refused_stream s1).1
