-- ===== src/Agent/Table.antt =====
-- `buildMemMetrics` of internal/agent/agent.go: the names, types and texts of what is collected. The
-- text of a float64 (`%f`) is a parameter.
use go_yandex_metrics.Base.{
  ℕ, zero, suc, ◌+◌, ◌/◌, ◌%◌, String, ◌≡◌, Bool, true, not, ◌&&◌, Option, none, some, List, [],
  ◌∷◌, ltb, if◌then◌else◌, str_eq, get_elem?,
}
use Prim.Native.String as Text
use go_yandex_metrics.Base.Text.{Bytes}
use go_yandex_metrics.Base.Decimal.{format_uint, format_int}
use go_yandex_metrics.Model.{counter, gauge}
use go_yandex_metrics.Agent.{AgentMetrics}

-- The fields of `runtime.MemStats` that are sent.
pub record MemStats : Type 0 where
  pub alloc : ℕ
  pub buck_hash_sys : ℕ
  pub frees : ℕ
  pub gc_cpu_fraction : ℕ
  pub gc_sys : ℕ
  pub heap_alloc : ℕ
  pub heap_idle : ℕ
  pub heap_inuse : ℕ
  pub heap_objects : ℕ
  pub heap_released : ℕ
  pub heap_sys : ℕ
  pub last_gc : ℕ
  pub lookups : ℕ
  pub m_cache_inuse : ℕ
  pub m_cache_sys : ℕ
  pub m_span_inuse : ℕ
  pub m_span_sys : ℕ
  pub mallocs : ℕ
  pub next_gc : ℕ
  pub num_forced_gc : ℕ
  pub num_gc : ℕ
  pub other_sys : ℕ
  pub pause_total_ns : ℕ
  pub stack_inuse : ℕ
  pub stack_sys : ℕ
  pub sys : ℕ
  pub total_alloc : ℕ

-- An entry of `MemMetrics`: its name, type and text.
abbrev pub Entry : Type 0
Entry = String × String × Bytes

-- Each entry has a name.
abbrev pub all_named : List Entry → Bool
all_named [] = true
all_named ((name, m_type, value) ∷ es) = not (str_eq name "") && all_named es

digit : ℕ → String
digit d =
    elim (get_elem? {A = String} ("0" ∷ "1" ∷ "2" ∷ "3" ∷ "4" ∷ "5" ∷ "6" ∷ "7" ∷ "8" ∷ "9" ∷ [])
      d) [ none ↦ "" | some text ↦ text ]

decimal : ℕ → ℕ → String
unfolding digit
decimal zero n = ""
decimal (suc fuel) n =
    let front = decimal fuel (n / 10) in
    if ltb n 10 then digit n else Text.◌++◌ front (digit (n % 10))

-- `fmt.Sprintf("CPUutilization%d", i+1)`, for an `i` below 10 ^ 20.
unfoldable pub cpu_name : ℕ → String
unfolding decimal
cpu_name i = Text.◌++◌ "CPUutilization" (decimal 20 (i + 1))

module _ (format_float : ℕ → Bytes) where
  abbrev uint_gauge : String → ℕ → Entry
  uint_gauge name n = (name, gauge, format_uint n)

  abbrev float_gauge : String → ℕ → Entry
  float_gauge name x = (name, gauge, format_float x)

  -- The loop over the processors, from the number `i`.
  unfoldable pub cpu_entries : ℕ → List ℕ → List Entry
  cpu_entries i [] = []
  cpu_entries i (load ∷ loads) = float_gauge (cpu_name i) load ∷ cpu_entries (i + 1) loads

  unfoldable pub build_mem_metrics : AgentMetrics MemStats → List Entry
  build_mem_metrics m =
      let s = m.mem_stats in
      uint_gauge "Alloc" s.alloc
      ∷ uint_gauge "BuckHashSys" s.buck_hash_sys
      ∷ uint_gauge "Frees" s.frees
      ∷ float_gauge "GCCPUFraction" s.gc_cpu_fraction
      ∷ uint_gauge "GCSys" s.gc_sys
      ∷ uint_gauge "HeapAlloc" s.heap_alloc
      ∷ uint_gauge "HeapIdle" s.heap_idle
      ∷ uint_gauge "HeapInuse" s.heap_inuse
      ∷ uint_gauge "HeapObjects" s.heap_objects
      ∷ uint_gauge "HeapReleased" s.heap_released
      ∷ uint_gauge "HeapSys" s.heap_sys
      ∷ uint_gauge "LastGC" s.last_gc
      ∷ uint_gauge "Lookups" s.lookups
      ∷ uint_gauge "MCacheInuse" s.m_cache_inuse
      ∷ uint_gauge "MCacheSys" s.m_cache_sys
      ∷ uint_gauge "MSpanInuse" s.m_span_inuse
      ∷ uint_gauge "MSpanSys" s.m_span_sys
      ∷ uint_gauge "Mallocs" s.mallocs
      ∷ uint_gauge "NextGC" s.next_gc
      ∷ uint_gauge "NumForcedGC" s.num_forced_gc
      ∷ uint_gauge "NumGC" s.num_gc
      ∷ uint_gauge "OtherSys" s.other_sys
      ∷ uint_gauge "PauseTotalNs" s.pause_total_ns
      ∷ uint_gauge "StackInuse" s.stack_inuse
      ∷ uint_gauge "StackSys" s.stack_sys
      ∷ uint_gauge "Sys" s.sys
      ∷ uint_gauge "TotalAlloc" s.total_alloc
      ∷ float_gauge "RandomValue" m.random_value
      ∷ ("PollCount", counter, format_int m.poll_count)
      ∷ uint_gauge "TotalMemory" m.total_memory
      ∷ uint_gauge "FreeMemory" m.free_memory
      ∷ cpu_entries 0 m.cpu_utilization

-- What strconv documents: the texts that are sent as gauges parse.
pub record ParsesFloats (parse_float : Bytes → Option ℕ) (format_float : ℕ → Bytes) : Type 0 where
  pub of_uint : (n : ℕ) → (v : ℕ) × (parse_float (format_uint n) ≡ some v)
  pub of_float : (x : ℕ) → (v : ℕ) × (parse_float (format_float x) ≡ some v)
