-- ===== src/Errors.antt =====
-- The error values of the package, as data: those of spdyframing/session.go, buffer.go,
-- semaphore.go and types.go, and those of package io and of the connection that pass through.
use Prim.Native.Nat.{ℕ}

-- `ErrorCode` of types.go.
pub data ErrorCode : Type 0 where
  unlowercased_header_name duplicate_headers wrong_compressed_payload_size : ErrorCode
  unknown_frame_type invalid_control_frame invalid_data_frame : ErrorCode
  invalid_header_present zero_stream_id : ErrorCode

pub data Error : Type 0 where
  -- `io.EOF`, `io.ErrUnexpectedEOF`, and a failed write to the connection
  eof unexpected_eof broken : Error
  -- what the decompressor reports of damaged input, by a number of its own
  zlib_error : ℕ → Error
  -- `&Error{code, streamId}`
  framing : ErrorCode → ℕ → Error
  -- buffer.go, semaphore.go
  buffer_closed read_empty write_full bad_increment : Error
  -- session.go
  closed not_readable cannot_reply not_writable flow_control closing : Error
  reset_error : ℕ → Error
  window_delta : ℕ → Error
