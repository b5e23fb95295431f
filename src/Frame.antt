-- ===== src/Frame.antt =====
-- spdyframing/types.go: the frames in their unpacked form, and the constants of the protocol.
use Prim.Native.Nat.{◌^◌, ◌-◌}
use spdy.Base.{ℕ, Bytes, List}
use spdy.Header.{Header}

-- `Version`, the values of `ControlFrameType`, and the flags.
abbrev pub version : ℕ
version = 3

abbrev pub type_syn_stream : ℕ
type_syn_stream = 1

abbrev pub type_syn_reply : ℕ
type_syn_reply = 2

abbrev pub type_rst_stream : ℕ
type_rst_stream = 3

abbrev pub type_settings : ℕ
type_settings = 4

abbrev pub type_ping : ℕ
type_ping = 6

abbrev pub type_go_away : ℕ
type_go_away = 7

abbrev pub type_headers : ℕ
type_headers = 8

abbrev pub type_window_update : ℕ
type_window_update = 9

abbrev pub max_data_length : ℕ
max_data_length = 2 ^ 24 - 1

-- Numbers of the source's unsigned types are plain numbers here, their ranges stated where needed.
pub record ControlFrameHeader : Type 0 where
  pub version : ℕ
  pub frame_type : ℕ
  pub flags : ℕ
  pub length : ℕ

pub record SynStreamFrame : Type 0 where
  pub cf_header : ControlFrameHeader
  pub stream_id : ℕ
  pub associated_to_stream_id : ℕ
  pub priority : ℕ
  pub slot : ℕ
  pub headers : Header

pub record SynReplyFrame : Type 0 where
  pub cf_header : ControlFrameHeader
  pub stream_id : ℕ
  pub headers : Header

pub record RstStreamFrame : Type 0 where
  pub cf_header : ControlFrameHeader
  pub stream_id : ℕ
  pub status : ℕ

pub record SettingsFlagIdValue : Type 0 where
  pub flag : ℕ
  pub id : ℕ
  pub value : ℕ

pub record SettingsFrame : Type 0 where
  pub cf_header : ControlFrameHeader
  pub flag_id_values : List SettingsFlagIdValue

pub record PingFrame : Type 0 where
  pub cf_header : ControlFrameHeader
  pub id : ℕ

pub record GoAwayFrame : Type 0 where
  pub cf_header : ControlFrameHeader
  pub last_good_stream_id : ℕ
  pub status : ℕ

pub record HeadersFrame : Type 0 where
  pub cf_header : ControlFrameHeader
  pub stream_id : ℕ
  pub headers : Header

pub record WindowUpdateFrame : Type 0 where
  pub cf_header : ControlFrameHeader
  pub stream_id : ℕ
  pub delta_window_size : ℕ

pub record DataFrame : Type 0 where
  pub stream_id : ℕ
  pub flags : ℕ
  pub content : Bytes

-- The interface `Frame`, with a constructor for each type that implements it.
pub data Frame : Type 0 where
  syn_stream : SynStreamFrame → Frame
  syn_reply : SynReplyFrame → Frame
  rst_stream : RstStreamFrame → Frame
  settings : SettingsFrame → Frame
  ping : PingFrame → Frame
  go_away : GoAwayFrame → Frame
  headers : HeadersFrame → Frame
  window_update : WindowUpdateFrame → Frame
  data_frame : DataFrame → Frame
