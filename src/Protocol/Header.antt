-- ===== src/Protocol/Header.antt =====
-- internal/protocol/header.go: the headers of requests and responses.
pub mod RoundTrip
use gokaf.Base.{List, ◌++◌, Option, ℤ, ℕ}
use gokaf.Protocol.Result.{Decoder, ◌>>=◌, return}
use gokaf.Protocol.Types.{
  write_int16, write_int32, write_nullable_string, read_int16, read_int32, read_nullable_string,
}

pub record RequestHeader : Type 0 where
  pub api_key : ℤ
  pub api_version : ℤ
  pub correlation_id : ℤ
  pub client_id : Option (List ℕ)

pub record ResponseHeader : Type 0 where
  pub correlation_id : ℤ

unfoldable pub write_request_header : RequestHeader → List ℕ
write_request_header h =
    write_int16 h.api_key
    ++ (write_int16 h.api_version
        ++ (write_int32 h.correlation_id ++ write_nullable_string h.client_id))

unfoldable pub read_request_header : Decoder RequestHeader
read_request_header = do
  api_key ← read_int16
  api_version ← read_int16
  correlation_id ← read_int32
  client_id ← read_nullable_string
  return (record {
    api_key = api_key;
    api_version = api_version;
    correlation_id = correlation_id;
    client_id = client_id;
  })

unfoldable pub write_response_header : ResponseHeader → List ℕ
write_response_header h = write_int32 h.correlation_id

unfoldable pub read_response_header : Decoder ResponseHeader
read_response_header = do
  correlation_id ← read_int32
  return (record { correlation_id = correlation_id })
