-- ===== src/Orchestrator/Flush.antt =====
-- `FlushAll`, `flushPod` and `GetStats` of sidecar-go/orchestrator/controller.go, whose goroutines
-- run one after the other here.
pub mod Settled
use Prim.Native.String.{◌++◌ as append}
use duckdb_load_testing_tool.Prelude.{
  ℕ, String, Bool, true, false, List, [], ◌∷◌, Option, none, some, length, if◌then◌else◌,
}
use duckdb_load_testing_tool.Prelude.Int.{ℤ, pos, eqb_ℤ, ◌+ℤ◌}
use duckdb_load_testing_tool.Prelude.Dict.{Dict}
use duckdb_load_testing_tool.Prelude.Format.{show_ℤ}
use duckdb_load_testing_tool.Prelude.Result.{Result, ok, err, Error, formatted, wrapped, ◌>>=◌}
use duckdb_load_testing_tool.Orchestrator.{Pod, healthy, unhealthy, flushing, Controller}
use duckdb_load_testing_tool.Orchestrator.Pods.{update_pod, names_of}

-- The struct into which the body of an answer is decoded.
pub record FlushReply : Type 0 where
  pub flushed : ℤ
  pub uploaded : Bool
  pub key : String

-- `error` is none for an empty text.
pub record FlushAllResult : Type 0 where
  pub pod : String
  pub flushed : ℤ
  pub uploaded : Bool
  pub key : String
  pub error : Option Error

-- What a pod answers to a flush: no response, or a status code with the body as it is and decoded.
pub data FlushAnswer : Type 0 where
  failed : Error → FlushAnswer
  answered : (code : ℤ) (body : String) (reply : Result FlushReply) → FlushAnswer

abbrev no_flush : String → Option Error → FlushAllResult
no_flush name e = record { pod = name; flushed = pos 0; uploaded = false; key = ""; error = e }

abbrev of_reply : String → Result FlushReply → FlushAllResult
of_reply name (err e) = no_flush name (some (wrapped "decode error: %v" [] e))
of_reply name (ok reply) = record {
  pod = name;
  flushed = reply.flushed;
  uploaded = reply.uploaded;
  key = reply.key;
  error = none;
}

-- flushPod
unfoldable pub flush_pod : String → FlushAnswer → FlushAllResult
flush_pod name (failed e) = no_flush name (some e)
flush_pod name (answered code body reply) =
    if eqb_ℤ code (pos 200)
    then of_reply name reply
    else no_flush name (some (formatted "status %d: %s" (show_ℤ code ∷ body ∷ [])))

-- The last critical section of the goroutine.
abbrev pub settle_pod : Option Error → Pod → Pod
settle_pod none p = record p { status = healthy }
settle_pod (some e) p = record p { status = unhealthy }

abbrev pub start_flush : Pod → Pod
start_flush p = record p { status = flushing }

-- The goroutine for one pod.
unfoldable pub flush_round : String → FlushAnswer → Controller → Result Controller
flush_round name answer c = do
  c1 ← update_pod name start_flush c
  update_pod name (settle_pod (flush_pod name answer).error) c1

-- FlushAll. The answer of a pod may depend on the endpoint, which `upload` chooses.
unfoldable pub flush_rounds :
    (String → FlushAnswer) → List String → Controller → Result (Controller × List FlushAllResult)
flush_rounds answers [] c = ok (c, [])
flush_rounds answers (name ∷ rest) c = do
  c1 ← flush_round name (answers name) c
  (c2, results) ← flush_rounds answers rest c1
  ok (c2, flush_pod name (answers name) ∷ results)

-- The path that `flushPod` requests.
abbrev pub flush_endpoint : Bool → String
flush_endpoint upload = if upload then "/api/v1/flush-upload" else "/api/v1/flush"

-- What the pods answer, by their names and the path.
unfoldable pub flush_all :
    (String → String → FlushAnswer) → Bool → Controller → Result (Controller × List FlushAllResult)
flush_all answers upload c =
    flush_rounds (λ name. answers name (flush_endpoint upload)) (names_of c.pods) c

-- The struct into which the statistics of a pod are decoded.
pub record PodStats : Type 0 where
  pub total_requests : ℤ
  pub error_count : ℤ
  pub buffer_size : ℤ

pub record Totals : Type 0 where
  pub total_requests : ℤ
  pub total_errors : ℤ
  pub total_buffered : ℤ
  pub pod_count : ℕ

abbrev add_stats : Option PodStats → Totals → Totals
add_stats none t = t
add_stats (some s) t = record t {
  total_requests = t.total_requests +ℤ s.total_requests;
  total_errors = t.total_errors +ℤ s.error_count;
  total_buffered = t.total_buffered +ℤ s.buffer_size;
}

unfoldable pub sum_stats : (String → Option PodStats) → List String → Totals → Totals
sum_stats answers [] t = t
sum_stats answers (name ∷ rest) t = sum_stats answers rest (add_stats (answers name) t)

-- GetStats, where a pod without a usable answer is left out of the sums, and never an error
unfoldable pub get_stats : (String → Option PodStats) → Controller → Totals
get_stats answers c = sum_stats answers (names_of c.pods) (record {
  total_requests = pos 0;
  total_errors = pos 0;
  total_buffered = pos 0;
  pod_count = length (names_of c.pods);
})
