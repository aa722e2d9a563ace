-- ===== src/Network/MetadataFollower/CatchUp.antt =====
-- A broker that pulls from the controller has the controller's topics afterwards.
use gokaf.Base.{
  ℕ, suc, ◌+◌, ◌^◌, ◌≤◌, ◌<◌, ◌≡◌, refl, sym, ap, ◌∙◌, List, [], ◌∷◌, ◌++◌, append-nil,
  append_assoc, map, some, pos, eq_ℤ, false, length, length-append, length-map, All, arith,
}
use mathlib.Core.List.{map-append}
use mathlib.Core.Path.{subst}
use gokaf.Protocol.Result.{Result, ok, err, panics, Reads}
use gokaf.Protocol.Types.{write_int64, write_bytes, write_array_len, read_array_len}
use gokaf.Protocol.Types.RoundTrip.{Reads-int32, Reads-int64, Reads-bytes}
use gokaf.Storage.Log.{Log, end_offset}
use gokaf.Storage.Log.Invariant.{Holds}
use gokaf.Cluster.Membership
use gokaf.Cluster.MetadataLog.{MetadataRecord, encode_metadata_record, append_record, append_raw}
use gokaf.Cluster.MetadataLog.RoundTrip.{
  FitsMetadata, decode_metadata_record-encode_metadata_record,
}
use gokaf.Cluster.MetadataLog.Reading.{raw-rest}
use gokaf.Network.Handler.{
  answer_of, Broker, Env, Handler, ◌>>=◌, return, reading, calling, times, drain, write_each,
}
use gokaf.Network.Fetch.Copying.{end_offset-Holds}
use gokaf.Network.Topics.{controller_id, log_change}
use gokaf.Network.Topics.Logged.{IsLogged, log_change-IsLogged}
use gokaf.Network.Dispatch.{handle_fetch_metadata_log, write_payloads}
use gokaf.Network.MetadataFollower.{
  store_raw, take_record, take_answer, find_controller, log_end, pull,
}

-- A change that fits the message that carries it.
abbrev pub IsSendable : MetadataRecord → Type 0
IsSendable r = FitsMetadata r × (length (encode_metadata_record r) < 2 ^ 31)

-- One round of the loop is the change that the controller made.
take_record-step :
    (env : Env) (b : Broker) (l : Log) (r : MetadataRecord) (s : List ℕ)
    → b.metadata_log ≡ some l
    → IsSendable r
    → take_record env b (write_bytes (encode_metadata_record r) ++ s)
      ≡ (log_change env b l r, ok (tt, s))
unfolding take_record ◌>>=◌ reading calling store_raw log_change append_raw append_record
take_record-step env b l r s e h =
    rw
      (
        Reads.run (Reads-bytes (encode_metadata_record r) h.1) s,
        e,
        decode_metadata_record-encode_metadata_record r h.0,
      )
      refl

ignored :
    {A B : Type 0} (f : A → B) (r : Broker × Result (A × List ℕ))
    → (gokaf.Network.Handler.and_then (λ a. return (f a)) r).0 ≡ r.0
unfolding return
ignored f (b, ok (a, s)) = refl
ignored f (b, err e) = refl
ignored f (b, panics) = refl

-- The loop over an answer's records.
Taken : Env → Broker → ℕ → List ℕ → List MetadataRecord → Type 0
Taken env b n bytes rs = (l : Log) × IsLogged (times n (take_record env) b bytes).0 l rs

times-Taken :
    (env : Env) (b : Broker) (l : Log) (rs more : List MetadataRecord)
    → IsLogged b l rs
    → All IsSendable more
    → suc (length rs + length more) ≤ 2 ^ 63
    → Taken env b
        (length more)
        (write_each write_bytes (map encode_metadata_record more))
        (rs ++ more)
unfolding times Taken ◌>>=◌ return write_each
times-Taken env b l rs [] h f fits = (l, subst (IsLogged b l) (sym (append-nil rs)) h)
times-Taken env b l rs (r ∷ more) h f fits =
    let after =
      log_change-IsLogged env b l rs r h (omega (arith, IsSendable-length r f.0))
        (omega (arith, fits)) in
    let rest =
      times-Taken env (log_change env b l r) (append_record l r).0 (rs ++ (r ∷ [])) more after f.1
        (omega (arith, fits, length-append rs (r ∷ []))) in
    (
      rest.0,
      rw
          (take_record-step env b l r (write_each write_bytes (map encode_metadata_record more))
            h.log f.0)
          (subst (λ b'. IsLogged b' rest.0 (rs ++ (r ∷ more)))
            (sym (
              ignored (λ xs. tt ∷ xs)
                (times (length more) (take_record env) (log_change env b l r) _)))
            (subst (IsLogged _ rest.0) (append_assoc rs (r ∷ []) more) rest.1)),
    )
  where
    IsSendable-length :
        (r : MetadataRecord) → IsSendable r → length (encode_metadata_record r) < 2 ^ 32
    IsSendable-length r p = omega (arith, p.1)

-- The controller's answer has what its log holds behind the follower's end.
served :
    (leader : Broker) (l : Log) (done todo : List (List ℕ))
    → leader.metadata_log ≡ some l
    → Holds l (done ++ todo)
    → length (done ++ todo) < 2 ^ 63
    → answer_of (handle_fetch_metadata_log leader (write_int64 (pos (length done))))
      ≡ some (write_payloads todo)
unfolding handle_fetch_metadata_log ◌>>=◌ reading return
served leader l done todo e h fits =
    rw
      (
        e,
        sym (append-nil (write_int64 (pos (length done)))),
        Reads.run (Reads-int64 (pos (length done)) (omega (arith, fits, length-append done todo)))
            [],
        end_offset-Holds l (done ++ todo) h,
        raw-rest (suc (length (done ++ todo))) l done todo h (omega (arith, fits))
            (omega (arith, length-append done todo)),
      )
      refl

-- The loop after its count.
drained :
    {A : Type 0} (h : Handler A) (b : Broker) (n : ℕ) (s : List ℕ)
    → n < 2 ^ 31
    → drain h b (write_array_len (pos n) ++ s) ≡ times n h b s
unfolding drain ◌>>=◌ reading read_array_len write_array_len
drained h b n s few = rw (Reads.run (Reads-int32 (pos n) few) s) refl

taken-eq :
    (env : Env) (b : Broker) (ps : List (List ℕ))
    → length ps < 2 ^ 31
    → take_answer env b (some (write_payloads ps))
      ≡ (times (length ps) (take_record env) b (write_each write_bytes ps)).0
unfolding take_answer write_payloads
taken-eq env b ps few =
    ap (λ r. r.0) (drained (take_record env) b (length ps) (write_each write_bytes ps) few)

-- Taking the answer in.
take_answer-Logged :
    (env : Env) (b : Broker) (l : Log) (rs more : List MetadataRecord)
    → IsLogged b l rs
    → All IsSendable more
    → suc (length rs + length more) ≤ 2 ^ 63
    → length more < 2 ^ 31
    → (l' : Log) × IsLogged
        (take_answer env b (some (write_payloads (map encode_metadata_record more))))
        l'
        (rs ++ more)
unfolding Taken
take_answer-Logged env b l rs more h f fits few =
    let taken = times-Taken env b l rs more h f fits in
    (
      taken.0,
      subst (λ b'. IsLogged b' taken.0 (rs ++ more))
          (sym (
            taken-eq env b (map encode_metadata_record more)
              (omega (arith, few, length-map encode_metadata_record more))
            ∙ ap
                (λ n.
                  (times n (take_record env) b
                    (write_each write_bytes (map encode_metadata_record more))).0)
                (length-map encode_metadata_record more)))
          taken.1,
    )

pull-eq :
    (env : Env) (b leader : Broker) (target : Membership.Broker) (l : Log) (response : List ℕ)
    → b.metadata_log ≡ some l
    → eq_ℤ (controller_id b) b.node_id ≡ false
    → find_controller b.cluster (controller_id b) ≡ some target
    → answer_of (handle_fetch_metadata_log leader (write_int64 (end_offset l))) ≡ some response
    → pull env (λ to body. answer_of (handle_fetch_metadata_log leader body)) b
      ≡ take_answer env b (some response)
unfolding pull
pull-eq env b leader target l response e other known asked =
    rw (other, known)
      (ap
          (λ log.
            take_answer env b
              (answer_of (handle_fetch_metadata_log leader (write_int64 (log_end log)))))
          e
        ∙ ap (take_answer env b) asked)

-- A broker whose metadata log is a front of the controller's pulls once, and the controller answers from
-- its own log: afterwards its metadata log has all changes of the controller's, and it has the
-- controller's topics. The broker knows the controller and is not the controller, the changes that it
-- misses fit their Go types and their messages, and there are fewer than 2^31 of them and 2^63 in all.
pub pull-IsLogged :
    (env : Env) (b leader : Broker) (target : Membership.Broker) (l l1 : Log)
    (rs more : List MetadataRecord)
    → IsLogged b l rs
    → IsLogged leader l1 (rs ++ more)
    → eq_ℤ (controller_id b) b.node_id ≡ false
    → find_controller b.cluster (controller_id b) ≡ some target
    → All IsSendable more
    → length more < 2 ^ 31
    → length (rs ++ more) < 2 ^ 63
    → (l' : Log) × IsLogged
        (pull env (λ to body. answer_of (handle_fetch_metadata_log leader body)) b)
        l'
        (rs ++ more)
      × (Broker.topics (pull env (λ to body. answer_of (handle_fetch_metadata_log leader body)) b)
          ≡ leader.topics)
pull-IsLogged env b leader target l l1 rs more h h1 other known f few fits =
    let after =
      take_answer-Logged env b l rs more h f (omega (arith, fits, length-append rs more)) few in
    let same = subst (λ b'. IsLogged b' after.0 (rs ++ more)) (sym pulled) after.1 in
    (after.0, same, IsLogged.topics same ∙ sym h1.topics)
  where
    encoded : Holds l1 (map encode_metadata_record rs ++ map encode_metadata_record more)
    encoded = subst (Holds l1) (map-append encode_metadata_record rs more) h1.holds

    asked :
        answer_of (handle_fetch_metadata_log leader (write_int64 (end_offset l)))
        ≡ some (write_payloads (map encode_metadata_record more))
    asked =
        ap (λ o. answer_of (handle_fetch_metadata_log leader (write_int64 o)))
          (end_offset-Holds l (map encode_metadata_record rs) h.holds)
        ∙ served leader l1 (map encode_metadata_record rs) (map encode_metadata_record more) h1.log
            encoded
            (omega (
              arith,
              fits,
              length-append rs more,
              length-append (map encode_metadata_record rs) (map encode_metadata_record more),
              length-map encode_metadata_record rs,
              length-map encode_metadata_record more,
            ))

    pulled :
        pull env (λ to body. answer_of (handle_fetch_metadata_log leader body)) b
        ≡ take_answer env b (some (write_payloads (map encode_metadata_record more)))
    pulled = pull-eq env b leader target l _ h.log other known asked
