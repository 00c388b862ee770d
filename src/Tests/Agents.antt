-- ===== src/Tests/Agents.antt =====
-- The agent, with measurements that carry no runtime statistics.
use go_yandex_metrics.Base.{
  ℕ, ◌+◌, ◌≤◌, ◌≡◌, refl, inl, inr, Bool, true, false, Option, none, some, [], ◌∷◌, arith, Error,
  message, ok,
}
use go_yandex_metrics.Base.Decimal.{parse_int, parse_uint, parse_digits}
use go_yandex_metrics.Handler.Http.{Request}
use go_yandex_metrics.Handler.Body.{is_gzip_body, read_and_verify_request_body}
use go_yandex_metrics.Agent.{
  AgentMetrics, SafeMetrics, Sample, send_unsent_metrics, updated_metrics, payload_of, request_body,
  request_header,
}
use go_yandex_metrics.Agent.Revisions.{SendEnds, send_unsent_metrics-SendEnds}
use go_yandex_metrics.Agent.Request.{agent_request_is_read}
use go_yandex_metrics.Tests.Data.{hits, public_key, keys-KeyPair, library, handler}

abbrev no_statistics : AgentMetrics Bool
no_statistics = record {
  poll_count = 1;
  mem_stats = true;
  random_value = 0;
  total_memory = 0;
  free_memory = 0;
  cpu_utilization = [];
}

abbrev collected : SafeMetrics Bool
collected = record { current = no_statistics; revision = 1; sent_revision = 0 }

abbrev sample : Sample Bool
sample = record {
  memory = inr (some (8, 4));
  cpu = inl (message "no processors");
  mem_stats = false;
  random = 6;
}

-- The server counts what it receives.
deliver : AgentMetrics Bool → ℕ → Option Error × ℕ
deliver m n = (none, n + m.poll_count)

send_unsent_metrics-SendEnds_example :
    let (r, m', w') = send_unsent_metrics Bool deliver (sample ∷ []) collected 0 in
    SendEnds Bool deliver collected 0 (r, m', w')
    × (m'.revision ≡ 2)
    × (m'.sent_revision ≤ m'.revision)
send_unsent_metrics-SendEnds_example =
    send_unsent_metrics-SendEnds Bool deliver (sample ∷ []) collected 0 (omega arith) (omega arith)

payload_runs : payload_of (λ s. none) (("Hits", "counter", 51 ∷ []) ∷ []) ≡ some (hits ∷ [])
unfolding payload_of updated_metrics parse_int parse_uint parse_digits
payload_runs = refl

abbrev sent : Request
sent = record {
  method = "POST";
  metric_type = "";
  metric_name = "";
  metric_value = [];
  body = request_body (some public_key) (91 ∷ 93 ∷ []);
  header = request_header library.sign_body "secret" (9 ∷ []) (91 ∷ 93 ∷ []);
  remote_addr = [];
  seconds = 0;
  context = λ n. none;
}

is_plain : is_gzip_body (91 ∷ 93 ∷ []) ≡ false
unfolding is_gzip_body
is_plain = refl

agent_request_is_read_example :
    read_and_verify_request_body library handler sent ≡ ok (91 ∷ 93 ∷ [])
agent_request_is_read_example =
    agent_request_is_read library handler sent (some public_key) (91 ∷ 93 ∷ []) (9 ∷ [])
      keys-KeyPair is_plain (refl, λ name. refl)
