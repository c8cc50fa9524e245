-- ===== src/Codec/Examples.antt =====
-- Runs of the codec of internal/taskmq/codec/codec.go.
use taskmq.Prelude.{◌≡◌, ◌<◌, ◌+◌, arith, [], length, take}
use taskmq.Task.{Task, zero_task}
use taskmq.Codec.{
  marshal, marshal_base, marshal_tail, unmarshal, ok, err, CodecError, write_string16,
  write_string32, write_int32, write_int64, put_uint16, put_uint32, put_uint64, put_be,
}
use taskmq.Codec.RoundTrip.{FitsBase, Fits, unmarshal-marshal}
use taskmq.Codec.Truncation.{unmarshal_truncated}
use taskmq.Tests.Data.{sample, zeros}

abbrev sample-FitsBase : FitsBase sample
sample-FitsBase = record {
  id = omega arith;
  queue = omega arith;
  name = omega arith;
  payload = omega arith;
  retry = (omega arith, omega arith);
  max_retry = (omega arith, omega arith);
  timeout_ms = (omega arith, omega arith);
  unique_key = omega arith;
  unique_ttl_ms = (omega arith, omega arith);
  last_error = omega arith;
  cron_spec = omega arith;
  created_at = (omega arith, omega arith);
}

abbrev sample-Fits : Fits sample
sample-Fits = record {
  base = sample-FitsBase;
  unique_scope = (omega arith, omega arith);
  group_key = omega arith;
  deadline_ms = (omega arith, omega arith);
}

unmarshal-marshal_example :
    unmarshal (marshal sample) zero_task ≡ ok (record sample { result = [] })
unmarshal-marshal_example = unmarshal-marshal sample zero_task sample-Fits

short : 10 + length (marshal_tail sample) < length (marshal sample)
unfolding marshal marshal_base marshal_tail write_string16 write_string32 write_int32 write_int64
    put_uint16 put_uint32 put_uint64 put_be
short = omega arith

unmarshal_truncated_example :
    (e : CodecError) × (unmarshal (take 10 (marshal sample)) zero_task ≡ err e)
unmarshal_truncated_example = unmarshal_truncated sample zero_task 10 sample-FitsBase short

abbrev oversized : Task
oversized = record zero_task { id = zeros 65536 }
