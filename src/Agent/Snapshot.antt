-- ===== src/Agent/Snapshot.antt =====
-- The payload of a snapshot: `buildMemMetrics` and `SendRequestToServer` of internal/agent/agent.go.
use go_yandex_metrics.Base.{
  ℕ, ◌+◌, ◌<◌, String, ◌≡◌, refl, sym, ◌∙◌, true, false, Option, some, List, [], ◌∷◌, arith, str_eq,
  All,
}
use mathlib.Core.Logic.{∥∥₁_elim}
use mathlib.Core.List.{Perm}
use mathlib.Core.Bool.{Bool-set}
use native.Mathlib.Nat.{ℕ_set}
use go_yandex_metrics.Base.Int64.{word_mod}
use go_yandex_metrics.Base.Text.{Bytes}
use go_yandex_metrics.Base.Decimal.{format_uint, format_int, parse_int-format_int}
use go_yandex_metrics.Model.{Metrics, counter, gauge}
use go_yandex_metrics.Repository.Merge.{IsValid}
use go_yandex_metrics.Repository.Memory.Totals.{sum_deltas}
use go_yandex_metrics.Agent.{AgentMetrics, updated_metrics, payload_of}
use go_yandex_metrics.Agent.Table.{
  MemStats, Entry, all_named, cpu_name, cpu_entries, build_mem_metrics, ParsesFloats,
}
use go_yandex_metrics.Agent.Payload.{
  poll_count_key, is_sent, all_sent, weight, total_weight, cpu_name-named, all_sent-permᴰ,
  total_weight-permᴰ, payload_of-IsPayload, all_sent-all_named, payload_ends,
}

module _ (parse_float : Bytes → Option ℕ) (format_float : ℕ → Bytes)
    (fl : ParsesFloats parse_float format_float) where
  sent_gauge :
      (name : String) (value : Bytes)
      → str_eq name "" ≡ false
      → (v : ℕ) × (parse_float value ≡ some v)
      → (is_sent parse_float (name, gauge, value) ≡ true)
        × (weight parse_float (name, gauge, value) ≡ 0)
  unfolding is_sent weight updated_metrics
  sent_gauge name value named (v, h) = ground (arith, named, h)

  cpu_entries-sent :
      (i : ℕ) (loads : List ℕ)
      → (all_sent parse_float (cpu_entries format_float i loads) ≡ true)
        × (total_weight parse_float (cpu_entries format_float i loads) ≡ 0)
  unfolding all_sent total_weight cpu_entries
  cpu_entries-sent i [] = (refl, refl)
  cpu_entries-sent i (load ∷ loads) = ground (
    arith,
    sent_gauge (cpu_name i) (format_float load) (cpu_name-named i) (fl.of_float load),
    cpu_entries-sent (i + 1) loads,
  )

  sent_count :
      (x : ℕ)
      → x < word_mod
      → (is_sent parse_float ("PollCount", counter, format_int x) ≡ true)
        × (weight parse_float ("PollCount", counter, format_int x) ≡ x)
  unfolding is_sent weight updated_metrics
  sent_count x h = ground (arith, parse_int-format_int x h)

  -- The entries of the table itself.
  uint_gauges-sent :
      (name : String) (n : ℕ) (es : List Entry) (w : ℕ)
      → str_eq name "" ≡ false
      → (all_sent parse_float es ≡ true) × (total_weight parse_float es ≡ w)
      → (all_sent parse_float ((name, gauge, format_uint n) ∷ es) ≡ true)
        × (total_weight parse_float ((name, gauge, format_uint n) ∷ es) ≡ w)
  unfolding all_sent total_weight
  uint_gauges-sent name n es w named h =
      ground (arith, sent_gauge name (format_uint n) named (fl.of_uint n), h)

  float_gauges-sent :
      (name : String) (n : ℕ) (es : List Entry) (w : ℕ)
      → str_eq name "" ≡ false
      → (all_sent parse_float es ≡ true) × (total_weight parse_float es ≡ w)
      → (all_sent parse_float ((name, gauge, format_float n) ∷ es) ≡ true)
        × (total_weight parse_float ((name, gauge, format_float n) ∷ es) ≡ w)
  unfolding all_sent total_weight
  float_gauges-sent name n es w named h =
      ground (arith, sent_gauge name (format_float n) named (fl.of_float n), h)

  count-sent :
      (x : ℕ) (es : List Entry)
      → x < word_mod
      → (all_sent parse_float es ≡ true) × (total_weight parse_float es ≡ 0)
      → (all_sent parse_float (("PollCount", counter, format_int x) ∷ es) ≡ true)
        × (total_weight parse_float (("PollCount", counter, format_int x) ∷ es) ≡ x)
  unfolding all_sent total_weight
  count-sent x es h t = ground (arith, sent_count x h, t)

  build_mem_metrics-sent :
      (m : AgentMetrics MemStats)
      → m.poll_count < word_mod
      → (all_sent parse_float (build_mem_metrics format_float m) ≡ true)
        × (total_weight parse_float (build_mem_metrics format_float m) ≡ m.poll_count)
  unfolding build_mem_metrics
  build_mem_metrics-sent m h =
      let u = uint_gauges-sent in
      let f = float_gauges-sent in
      let w = m.poll_count in
      let s = m.mem_stats in
      u _ s.alloc _ w refl (
        u _ s.buck_hash_sys _ w refl (
          u _ s.frees _ w refl (
            f _ s.gc_cpu_fraction _ w refl (
              u _ s.gc_sys _ w refl (
                u _ s.heap_alloc _ w refl (
                  u _ s.heap_idle _ w refl (
                    u _ s.heap_inuse _ w refl (
                      u _ s.heap_objects _ w refl (
                        u _ s.heap_released _ w refl (
                          u _ s.heap_sys _ w refl (
                            u _ s.last_gc _ w refl (
                              u _ s.lookups _ w refl (
                                u _ s.m_cache_inuse _ w refl (
                                  u _ s.m_cache_sys _ w refl (
                                    u _ s.m_span_inuse _ w refl (
                                      u _ s.m_span_sys _ w refl (
                                        u _ s.mallocs _ w refl (
                                          u _ s.next_gc _ w refl (
                                            u _ s.num_forced_gc _ w refl (
                                              u _ s.num_gc _ w refl (
                                                u _ s.other_sys _ w refl (
                                                  u _ s.pause_total_ns _ w refl (
                                                    u _ s.stack_inuse _ w refl (
                                                      u _ s.stack_sys _ w refl (
                                                        u _ s.sys _ w refl (
                                                          u _ s.total_alloc _ w refl (
                                                            f _ m.random_value _ w refl (
                                                            count-sent w _ h (
                                                            u _ m.total_memory _ 0 refl (
                                                            u _ m.free_memory _ 0 refl (
                                                            cpu_entries-sent 0
                                                            m.cpu_utilization)))))))))))))))))))))))))))))))

  -- An order of the table has the properties of the table.
  permuted-sent :
      (m : AgentMetrics MemStats) (es : List Entry)
      → m.poll_count < word_mod
      → Perm (build_mem_metrics format_float m) es
      → (all_sent parse_float es ≡ true) × (total_weight parse_float es ≡ m.poll_count)
  permuted-sent m es h p =
      let built = build_mem_metrics-sent m h in
      let sent : all_sent parse_float (build_mem_metrics format_float m) ≡ all_sent parse_float es =
        ∥∥₁_elim p (Bool-set _ _) (λ d. all_sent-permᴰ parse_float d) in
      let weighs : total_weight parse_float (build_mem_metrics format_float m)
          ≡ total_weight parse_float es =
        ∥∥₁_elim p (ℕ_set _ _) (λ d. total_weight-permᴰ parse_float d) in
      (sym sent ∙ built.0, sym weighs ∙ built.1)

  pub build_mem_metrics-all_named :
      (m : AgentMetrics MemStats) (es : List Entry)
      → m.poll_count < word_mod
      → Perm (build_mem_metrics format_float m) es
      → all_named es ≡ true
  build_mem_metrics-all_named m es h p =
      all_sent-all_named parse_float es (permuted-sent m es h p).0

  -- The payload that is sent of a snapshot, in whatever order the table is iterated, is made
  -- without an error, holds valid metrics only, and its deltas for PollCount come to the whole
  -- count of the snapshot, below 2^64, if the texts of its gauges parse.
  pub payload_of-build_mem_metrics :
      (m : AgentMetrics MemStats) (es : List Entry)
      → m.poll_count < word_mod
      → Perm (build_mem_metrics format_float m) es
      → (ms : List Metrics) × (payload_of parse_float es ≡ some ms)
        × All IsValid ms
        × (sum_deltas poll_count_key ms ≡ m.poll_count)
  payload_of-build_mem_metrics m es h p =
      let sent = permuted-sent m es h p in
      payload_ends parse_float es (payload_of parse_float es)
        (payload_of-IsPayload parse_float es sent.0) sent.1
