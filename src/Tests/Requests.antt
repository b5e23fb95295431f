-- ===== src/Tests/Requests.antt =====
-- Runs of package spdy on one request, over stand-ins for the parts of the Go library that the model
-- leaves open.
use spdy.Base.{◌≡◌, refl, true, false, none, some, [], ◌∷◌, bytes_eq, if◌then◌else◌, arith}
use spdy.Base.Int.{pos, negsuc}
use spdy.Base.Text.{codes}
use spdy.Header.{values_of, canonical_key, is_token, is_token_byte, contains, capitalise, is_ascii}
use spdy.Session.{Session, Stream, unset}
use spdy.Session.Calls
use spdy.Session.Calls.{reset_stream}
use spdy.Session.Reach.{resets}
use spdy.Http.{Net, parsed, get, del, copy_header, trim_space, drop_values, trim_left, trim_right}
use spdy.Http.Request.{read_request, request_length}
use spdy.Http.Framing.{Outgoing}
use spdy.Http.Answer.{read_response}
use spdy.Http.Answers.{IsAnswer, read_response-IsAnswer}
use spdy.Http.Server.{
  Response, framing_header, write_header, finish_request, framing_header, take_request,
}
use spdy.Http.Serves.{others, done, writes_header, serves, Serves-ends}
use spdy.Tests.Frames.{stored, plain}

abbrev pub net : Net
net = record {
  unicode_trim = λ s. s;
  parse_version = λ v. if bytes_eq v (codes "HTTP/1.1") then some (1, 1) else none;
  status_text = λ code. [];
}

-- A request for a page, with a field that the framing layer forbids.
abbrev pub page : Outgoing
page = record {
  method = codes "GET";
  scheme = [];
  uri = codes "/a";
  url_host = codes "x.org";
  host = [];
  proto = [];
  header = (codes "Connection", codes "close" ∷ []) ∷ [];
  content_length = pos 0;
  has_body = false;
}

-- A stream that a client has opened with a request for the root.
abbrev asked : Stream
asked = record {
  id = 1;
  pipe = record { buf = 0 ∷ []; r = 0; w = 0; closed = false; err = none };
  rclosed = true;
  wready = false;
  wnd = record { n = pos 8; closed = false; err = none };
  wclosed = false;
  header = some ((codes ":path", codes "/" ∷ []) ∷ (codes ":version", codes "HTTP/1.1" ∷ []) ∷ []);
  reply = unset;
}

abbrev server : Session stored
server = record {
  fr = plain 100;
  rstreams = (1, 0) ∷ [];
  next_syn_id = 2;
  initwnd = pos 8;
  closing = false;
  last_recv_id = 1;
  err = none;
  is_server = true;
  done = false;
  heap = λ _. asked;
  count = 1;
  tasks = [];
}

abbrev root : Response
root = record {
  stream = 0;
  req = record {
    method = [];
    scheme = [];
    path = codes "/";
    url_host = [];
    host = [];
    proto = codes "HTTP/1.1";
    proto_major = 1;
    proto_minor = 1;
    header = [];
    content_length = negsuc 0;
    body = record { reader = some 0; trailer = none };
  };
  header = [];
  wrote_header = false;
  finished = false;
}

root_taken : take_request stored net 0 server ≡ some (parsed root, server)
unfolding take_request Calls.header read_request get values_of canonical_key is_token is_token_byte
    contains capitalise bytes_eq request_length trim_space copy_header del is_ascii drop_values
    trim_right trim_left
root_taken = refl

-- The stream is reset, and then the handler answers that there is no such page.
abbrev cut_off : Session stored
cut_off = (reset_stream stored 0 5 server).1

Serves-ends_example :
    ((finish_request stored net (write_header stored net 404 (root, cut_off))).heap 0).wclosed
    ≡ true
Serves-ends_example =
    Serves-ends stored net 0 server _ (omega arith)
      (serves root server _ root_taken (others (resets 0 5) (writes_header 404 done)))

-- The answer to a HEAD request for a page that is not there.
read_response-IsAnswer_example :
    IsAnswer net
      (framing_header net 404 [])
      none
      (some 0)
      (codes "HEAD")
      404
      []
      (read_response net (framing_header net 404 []) none (some 0) (codes "HEAD"))
unfolding bytes_eq
read_response-IsAnswer_example =
    read_response-IsAnswer net [] none (some 0) (codes "HEAD") 404 (1, 1) (omega arith) refl
