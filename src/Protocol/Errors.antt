-- ===== src/Protocol/Errors.antt =====
-- internal/protocol/errors.go: the error codes of the answers, without those that only the group
-- coordinator uses.
use gokaf.Base.{ℤ, pos, negsuc}

abbrev pub unknown : ℤ
unknown = negsuc 0

abbrev pub no_error : ℤ
no_error = pos 0

abbrev pub offset_out_of_range : ℤ
offset_out_of_range = pos 1

abbrev pub corrupt_message : ℤ
corrupt_message = pos 2

abbrev pub unknown_topic_or_partition : ℤ
unknown_topic_or_partition = pos 3

abbrev pub not_leader_for_partition : ℤ
not_leader_for_partition = pos 6

abbrev pub request_timed_out : ℤ
request_timed_out = pos 7

abbrev pub topic_already_exists : ℤ
topic_already_exists = pos 36

abbrev pub invalid_partitions : ℤ
invalid_partitions = pos 37

abbrev pub invalid_replication_factor : ℤ
invalid_replication_factor = pos 38

abbrev pub out_of_order_sequence_number : ℤ
out_of_order_sequence_number = pos 45

abbrev pub not_controller : ℤ
not_controller = pos 41
