-- ===== src/Message.antt =====
-- include/minirpc/message.hpp and src/message.cpp: the message that both ends exchange.
use insist.Base.{ℕ, ◌<◌, ◌^◌, ◌==◌, if◌then◌else◌, length, List, []}
use insist.Base.{All, ℤ, pos, IsI32}
use Prim.Native.String.{String}

-- `RpcMessage::Kind` has the fixed underlying type `std::uint32_t`, so every 32-bit value is one of
-- its values; these five have names.
abbrev pub kind_unknown : ℕ
kind_unknown = 0

abbrev pub kind_request : ℕ
kind_request = 1

abbrev pub kind_response : ℕ
kind_response = 2

abbrev pub kind_notify : ℕ
kind_notify = 3

abbrev pub kind_heartbeat : ℕ
kind_heartbeat = 4

-- The `std::string` fields are lists of bytes.
pub record RpcMessage : Type 0 where
  pub id : ℕ
  pub kind : ℕ
  pub service : List ℕ
  pub method : List ℕ
  pub payload : List ℕ
  pub status : ℤ
  pub error : List ℕ

-- The member initialisers.
abbrev pub blank : RpcMessage
blank = record {
  id = 0;
  kind = kind_unknown;
  service = [];
  method = [];
  payload = [];
  status = pos 0;
  error = [];
}

abbrev pub IsByte : ℕ → Type 0
IsByte b = b < 256

-- A `std::string`: bytes, and fewer than 2^64 of them.
pub record IsText (s : List ℕ) : Type 0 where
  pub bytes : All IsByte s
  pub fits : length s < 2 ^ 64

-- What the C++ types of the fields say.
pub record IsTyped (m : RpcMessage) : Type 0 where
  pub id_u64 : m.id < 2 ^ 64
  pub kind_u32 : m.kind < 2 ^ 32
  pub service_text : IsText m.service
  pub method_text : IsText m.method
  pub payload_text : IsText m.payload
  pub status_i32 : IsI32 m.status
  pub error_text : IsText m.error

unfoldable pub to_string : ℕ → String
to_string kind =
    if kind == kind_request
    then "REQUEST"
    else if kind == kind_response
    then "RESPONSE"
    else if kind == kind_notify
    then "NOTIFY"
    else if kind == kind_heartbeat
    then "HEARTBEAT"
    else "UNKNOWN"
