-- ===== src/Protocol/Header/RoundTrip.antt =====
-- Headers are read back as they were written, and the request's body is what is left.
use gokaf.Base.{IsInt16, IsInt32}
use gokaf.Protocol.Result.{Reads, Reads-bind, Reads-last, Reads-return}
use gokaf.Protocol.Types.RoundTrip.{Reads-int16, Reads-int32, Reads-nullable_string, FitsNullable}
use gokaf.Protocol.Header.{
  RequestHeader, ResponseHeader, write_request_header, read_request_header, write_response_header,
  read_response_header,
}

-- The fields are values of their Go types, and the client id fits an int16 length.
pub record FitsRequest (h : RequestHeader) : Type 0 where
  pub api_key : IsInt16 h.api_key
  pub api_version : IsInt16 h.api_version
  pub correlation_id : IsInt32 h.correlation_id
  pub client_id : FitsNullable h.client_id

-- The header that `WriteRequestHeader` wrote, with any bytes behind it, is read back by
-- `ReadRequestHeader`, which leaves exactly those bytes, if its fields fit their Go types and the
-- client id, when there is one, is shorter than 2^15 bytes.
pub Reads-request_header :
    (h : RequestHeader) → FitsRequest h → Reads read_request_header (write_request_header h) h
unfolding read_request_header write_request_header
Reads-request_header h fits = Reads-bind _ (Reads-int16 h.api_key fits.api_key) (
    Reads-bind _ (Reads-int16 h.api_version fits.api_version) (
      Reads-bind _ (Reads-int32 h.correlation_id fits.correlation_id)
        (Reads-last _ (Reads-nullable_string h.client_id fits.client_id) Reads-return)))

pub Reads-response_header :
    (h : ResponseHeader)
    → IsInt32 h.correlation_id
    → Reads read_response_header (write_response_header h) h
unfolding read_response_header write_response_header
Reads-response_header h fits = Reads-last _ (Reads-int32 h.correlation_id fits) Reads-return
