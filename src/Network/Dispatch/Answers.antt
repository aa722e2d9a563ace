-- ===== src/Network/Dispatch/Answers.antt =====
-- A request that a client writes goes to the handler of its key, and its answer carries its correlation id.
use gokaf.Base.{
  ℕ, ◌≡◌, ◌≢◌, refl, sym, ap, ◌∙◌, List, ◌++◌, Option, none, some, ℤ, pos, negsuc, eq_ℤ, eq_ℤ_iff,
  true, false, Bool, Bool-cases, inl, inr,
}
use mathlib.Core.Path.{subst}
use gokaf.Protocol.Result.{Result, ok, err, panics}
use gokaf.Protocol.Types.{write_int16, write_int32}
use gokaf.Protocol.Header.{RequestHeader, write_request_header, write_response_header}
use gokaf.Protocol.Header.RoundTrip.{FitsRequest, Reads-request_header}
use gokaf.Network.Handler.{Broker, Env, Handler, return}
use gokaf.Network.Produce.{handle_produce}
use gokaf.Network.Fetch.{handle_fetch, handle_list_offsets}
use gokaf.Network.Metadata.{handle_metadata}
use gokaf.Network.TopicRequests.{handle_create_topics, handle_delete_topics, handle_apply_topic}
use gokaf.Network.GroupRequests.{
  handle_join_group, handle_sync_group, handle_heartbeat, handle_leave_group, handle_offset_commit,
  handle_offset_fetch,
}
use gokaf.Network.Dispatch.{
  find_handler, dispatch_table, handler_of, respond, dispatch_with, dispatch, handle_api_versions,
  handle_find_coordinator, handle_init_producer_id, handle_ping, handle_fetch_metadata_log,
  handle_unknown,
}

-- The requests that a broker knows, by their names in the protocol.
pub data Api : Type 0 where
  produce_request : Api
  fetch_request : Api
  list_offsets_request : Api
  metadata_request : Api
  offset_commit_request : Api
  offset_fetch_request : Api
  find_coordinator_request : Api
  join_group_request : Api
  heartbeat_request : Api
  leave_group_request : Api
  sync_group_request : Api
  api_versions_request : Api
  create_topics_request : Api
  delete_topics_request : Api
  init_producer_id_request : Api
  apply_topic_request : Api
  ping_request : Api
  fetch_metadata_log_request : Api

abbrev pub key_of : Api → ℤ
key_of produce_request = pos 0
key_of fetch_request = pos 1
key_of list_offsets_request = pos 2
key_of metadata_request = pos 3
key_of offset_commit_request = pos 8
key_of offset_fetch_request = pos 9
key_of find_coordinator_request = pos 10
key_of join_group_request = pos 11
key_of heartbeat_request = pos 12
key_of leave_group_request = pos 13
key_of sync_group_request = pos 14
key_of api_versions_request = pos 18
key_of create_topics_request = pos 19
key_of delete_topics_request = pos 20
key_of init_producer_id_request = pos 22
key_of apply_topic_request = pos 1000
key_of ping_request = pos 1001
key_of fetch_metadata_log_request = pos 1002

abbrev pub handler_for : Env → RequestHeader → Api → Handler (List ℕ)
handler_for env header produce_request = handle_produce env
handler_for env header fetch_request = handle_fetch env
handler_for env header list_offsets_request = handle_list_offsets env
handler_for env header metadata_request = handle_metadata env
handler_for env header offset_commit_request = handle_offset_commit env
handler_for env header offset_fetch_request = handle_offset_fetch
handler_for env header find_coordinator_request = handle_find_coordinator
handler_for env header join_group_request = handle_join_group env header
handler_for env header heartbeat_request = handle_heartbeat
handler_for env header leave_group_request = handle_leave_group
handler_for env header sync_group_request = handle_sync_group env
handler_for env header api_versions_request = handle_api_versions
handler_for env header create_topics_request = handle_create_topics env
handler_for env header delete_topics_request = handle_delete_topics env
handler_for env header init_producer_id_request = handle_init_producer_id
handler_for env header apply_topic_request = handle_apply_topic env
handler_for env header ping_request = handle_ping
handler_for env header fetch_metadata_log_request = handle_fetch_metadata_log

-- What a header's key asks for: one of the requests, or nothing that is known.
abbrev pub Asked : ℤ → Option Api → Type 0
Asked key (some api) = key ≡ key_of api
Asked key none = (api : Api) → key ≢ key_of api

-- A request that is not known is answered with the error code -1, and changes nothing.
abbrev pub run_for : Env → RequestHeader → Option Api → Handler (List ℕ)
run_for env header (some api) = handler_for env header api
run_for env header none = λ b s. (b, ok (write_int16 (negsuc 0), s))

-- The outcome of a dispatch, by that of the handler: the correlation id and what the handler wrote, or the
-- handler's error or panic; what the handler changed stays changed.
abbrev pub Answered : ℤ → Broker × Result (List ℕ × List ℕ) → Broker × Result (List ℕ) → Type 0
Answered id (b, ok (body, rest)) out = out ≡ (b, ok (write_int32 id ++ body))
Answered id (b, err e) out = out ≡ (b, err e)
Answered id (b, panics) out = out ≡ (b, panics)

found :
    (env : Env) (header : RequestHeader) (api : Api)
    → handler_of env header (key_of api) ≡ handler_for env header api
unfolding handler_of find_handler dispatch_table
found env header produce_request = refl
found env header fetch_request = refl
found env header list_offsets_request = refl
found env header metadata_request = refl
found env header offset_commit_request = refl
found env header offset_fetch_request = refl
found env header find_coordinator_request = refl
found env header join_group_request = refl
found env header heartbeat_request = refl
found env header leave_group_request = refl
found env header sync_group_request = refl
found env header api_versions_request = refl
found env header create_topics_request = refl
found env header delete_topics_request = refl
found env header init_producer_id_request = refl
found env header apply_topic_request = refl
found env header ping_request = refl
found env header fetch_metadata_log_request = refl

not_found :
    (env : Env) (header : RequestHeader) (key : ℤ)
    → ((api : Api) → key ≢ key_of api)
    → handler_of env header key ≡ handle_unknown
unfolding handler_of find_handler dispatch_table
not_found env header key h =
    rw
      (
        missed produce_request,
        missed fetch_request,
        missed list_offsets_request,
        missed metadata_request,
        missed offset_commit_request,
        missed offset_fetch_request,
        missed find_coordinator_request,
        missed join_group_request,
        missed heartbeat_request,
        missed leave_group_request,
        missed sync_group_request,
        missed api_versions_request,
        missed create_topics_request,
        missed delete_topics_request,
        missed init_producer_id_request,
        missed apply_topic_request,
        missed ping_request,
        missed fetch_metadata_log_request,
      )
      refl
  where
    true-false : ¬ Path Bool true false
    true-false p = cc p

    missed : (api : Api) → eq_ℤ (key_of api) key ≡ false
    missed api = elim (Bool-cases (eq_ℤ (key_of api) key)) [
      | inl p ↦ absurd (h api (sym ((eq_ℤ_iff (key_of api) key).0 p)))
      | inr p ↦ p
    ]

handler_of-run_for :
    (env : Env) (header : RequestHeader) (api : Option Api)
    → Asked header.api_key api
    → (b : Broker) (body : List ℕ)
    → handler_of env header header.api_key b body ≡ run_for env header api b body
unfolding handle_unknown return
handler_of-run_for env header (some api) h b body =
    ap (λ key. handler_of env header key b body) h ∙ ap (λ run. run b body) (found env header api)
handler_of-run_for env header none h b body =
    ap (λ run. run b body) (not_found env header header.api_key h)

respond-Answered :
    (header : RequestHeader) (r : Broker × Result (List ℕ × List ℕ))
    → Answered header.correlation_id r (respond header r)
unfolding write_response_header
respond-Answered header (b, ok (body, rest)) = refl
respond-Answered header (b, err e) = refl
respond-Answered header (b, panics) = refl

-- `Dispatch` of a request that a client writes, a header and a body, runs on exactly the body the
-- handler of the request that the header's key stands for, by the key numbers of the protocol, and
-- writes the header's correlation id before what this answers; it ends in the handler's error if it has
-- one. A key that stands for no request is answered with the code -1, and the broker stays as it was.
-- The header's fields fit their types and the client id is shorter than 2^15 bytes.
pub dispatch-write_request_header :
    (env : Env) (b : Broker) (header : RequestHeader) (body : List ℕ) (api : Option Api)
    → FitsRequest header
    → Asked header.api_key api
    → Answered header.correlation_id
        (run_for env header api b body)
        (dispatch env b (write_request_header header ++ body))
unfolding dispatch
dispatch-write_request_header env b header body api fits asked =
    subst
      (λ r. Answered header.correlation_id r (dispatch env b (write_request_header header ++ body)))
      (handler_of-run_for env header api asked b body)
      (subst (Answered header.correlation_id (handler_of env header header.api_key b body))
        (sym (ap (dispatch_with env b) ((Reads-request_header header fits).run body)))
        (respond-Answered header (handler_of env header header.api_key b body)))
