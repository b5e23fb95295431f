-- ===== src/Lib.antt =====
-- A model of the SPDY/3 framing layer, package spdyframing, and of the HTTP layer over it.
--
-- The package reads and writes frames on a connection (a Framer, read.go and write.go over the types
-- of types.go), and multiplexes streams over it (session.go). A stream keeps what it has received in
-- a pipe (pipe.go), a buffer whose reader waits, and spends its send window through a semaphore.
--
-- Files, with the parts that they model:
--   Buffer       spdyframing/buffer.go: Read, Len, Write and Close are read, len, write and close, from
--                a Buffer to results and a Buffer. Buffer/Fifo is the queue that it implements,
--                Buffer/Inv its invariant, Buffer/Refine the refinement, Buffer/Stream its bytes.
--   Pipe         spdyframing/pipe.go: a method holds the lock, so it is one step; a read that waits
--                is none. Pipe/Wakeup adds the goroutines that sleep in Read: Signal wakes the oldest,
--                which tests the condition again later.
--   Semaphore    spdyframing/semaphore.go: Dec, Inc and Close are dec, inc and close; the count is an
--                int32 with its wrap-around. Semaphore/Wakeup adds the goroutines that sleep in Dec:
--                Signal wakes the oldest, which tests the condition again later, and goes on as
--                writeData, its one caller, does: an error closes the window once more.
--   Frame        spdyframing/types.go: the frames and the constants of the protocol.
--   Framer       the Framer of types.go, with what its connection still takes and brings.
--     Dictionary dictionary.go.
--     Block      parseHeaderValueBlock and writeHeaderValueBlock; Block/Duplicates is about the test
--                for a name that comes twice.
--     Write      write.go, a function for each method, under its name.
--     Read       read.go, likewise.
--     Encoding   the layout of the frames in plain arithmetic; Encode and EncodeHeaders compare the
--                writers with it, Decode and DecodeHeaders the readers, and RoundTrip puts both together.
--     Compressed frames with compressed headers, by the laws of zlib: Writes, Blocks, Frames, and Rows
--                for frames one after the other.
--     Accept     the checks that a frame has passed when it is read, by the rules of Yields; Takes and
--                Progress, the bytes that the reader takes.
--   Header       http.Header, names in canonical form and in lower case, and lists of values.
--   Session      spdyframing/session.go: the Session, the Stream, Start, add, maybeRemove and what else
--                the methods share. A stream is an object at an address; the map rstreams leads from
--                ids to addresses; a go statement leaves a task.
--     Table      the map.
--     Receive    the reading goroutine: handleRead and all its handlers, the loop, and its end.
--     Calls      Open, and Header, Reply, Read, Write, Close and Reset of a stream.
--     Inv        the invariant of the map and the ids; Adds, Steps, End and CallSteps, the operations
--                that keep it; Reach, the interleavings.
--     Loop       the loop as a whole; Writing (by Round), Delivery, Resets and Oversize, the streams' data.
--     Leaves     what a call of Write keeps.
--     Waits      Wait, under any interleaving, by Fate (what decides that a session is over); Released,
--                the calls on a stream after the end of the reading goroutine.
--     Writable   what no operation takes back of a stream; Others, that no step of any goroutine does.
--     Arrival    Write and the reading goroutine at the other end, by Carrying (the frames of a Write as
--                bytes) and Rounds (the reading goroutine on them).
--   Http         package spdy: the operations of http.Header and the decimal numbers that it uses.
--     Length     fixLength and parseContentLength of transfer.go.
--     Request    ReadRequest of request.go; Framing, its RequestFramingHeader; Fields and Exchange take
--                the two together, Travels with the frame and the connection in between, and Decimal
--                is about numbers.
--     Answer     ReadResponse of response.go; Answers takes it together with framingHeader.
--     Server     readRequest and the response writer of server.go; Serves, its serveStream over a
--                handler that changes fields, calls WriteHeader and Write, and in between which it
--                and any other goroutine make any steps of the session; by Ready.
--     Content    the body of transfer.go over any reader; Trailers is about its trailer.
--     Checks     the check for forbidden fields in the frame reader and in ReadResponse.
--     Client     RoundTrip of conn.go, up to where it waits for the reply and from there on, and the
--                goroutine that copies the request's body; Trips is about a RoundTrip that fails, and
--                Copying about the goroutine.
--     Config     what ListenAndServeTLS and serveConn of server.go make of a Server; Offers is about it.
--   Wire         encoding/binary and io.ReadFull, as the package uses them.
--   Stdlib       package compress/zlib and the Unicode part of strings.ToLower, as parameters.
--   Errors       the error values.
--   Base         numbers, lists, bits and integers.
--   Tests        runs on concrete values.
--
-- A map is a list of entries, in the order in which range gives them. A connection takes a given
-- number of bytes and then fails, and brings a given sequence of bytes and then ends. Every loop
-- of the framer counts down a number or follows a list. Two loops of the session run on fuel: the
-- reading one takes eight bytes or more off the connection in a round, so that more fuel than there
-- are bytes is enough; Write sends a byte or more in a round, so that more than it has is enough. The
-- loop in which Close discards a body has for fuel the number of its Reads; a reader that ends within
-- it is a hypothesis.
--
-- A method of the session is one step. Where it would wait (Header for a reply, Read for data, Write
-- for window) the step cannot be made yet. The sources' unlocked accesses to a stream (rclosed,
-- wclosed, wready, reply) are data races, and their interleavings inside a method are not modelled.
-- Ids are taken not to run out: Open is a step while the next id has not wrapped around.
--
-- A writeData that has slept in Dec goes on from there as a step of its own (`wakes`), without testing
-- the stream again. A Read of a stream that waits for bytes is a step when there is something to read;
-- the readers that sleep, and the Signal that wakes one of them, are the subject of Pipe/Wakeup alone.
--
-- Not modelled: the log; and the listening and TLS
-- of server.go with ServeConn, which are I/O. Parameters stand for the readers of bodies, for compress/zlib, for the
-- Unicode parts of strings.ToLower and strings.TrimSpace, and for http.ParseHTTPVersion,
-- http.StatusText and URL.RequestURI. The laws of zlib that Framer/Compressed names are what flushing
-- promises: a decompressor gives what was compressed up to a flush, and goes on from there. How much it
-- reads ahead is open, so that a block may be refused for its size. The trailer of a body is taken to
-- be complete at its end. The code of a response to write is taken not to be negative.
pub mod Base
pub mod Errors
pub mod Buffer
pub mod Semaphore
pub mod Pipe
pub mod Wire
pub mod Stdlib
pub mod Header
pub mod Frame
pub mod Framer
pub mod Session
pub mod Http
pub mod Tests
