-- ===== src/Agent.antt =====
-- internal/agent/agent.go: the metrics that are collected under a lock and their revisions, and the
-- request that is made of them. A snapshot is a value. What the libraries measure is a parameter, as
-- are JSON encoding and the parsing of a float64.
pub mod Revisions
pub mod Request
pub mod Table
pub mod Payload
pub mod Snapshot
pub mod Proto
pub mod Delivery
pub mod Sending
pub mod Attempts
pub mod Run
pub mod Backed
pub mod Stops
use go_yandex_metrics.Base.{
  ℕ, String, ◌⊎◌, inl, inr, Bool, true, false, not, ◌&&◌, Option, none, some, List, [], ◌∷◌, ltb,
  if◌then◌else◌, str_eq, Error, wrap, join, Result, ok, err, panic,
}
use go_yandex_metrics.Base.Int64.{add64}
use go_yandex_metrics.Base.Text.{Bytes, codes}
use go_yandex_metrics.Base.Decimal.{parse_int}
use go_yandex_metrics.Crypto.{PublicKey, encrypt}
use go_yandex_metrics.Model.{Metrics, counter, gauge}

module _ (MemStats : Type 0) where
  pub record AgentMetrics : Type 0 where
    pub poll_count : ℕ
    pub mem_stats : MemStats
    pub random_value : ℕ
    pub total_memory : ℕ
    pub free_memory : ℕ
    pub cpu_utilization : List ℕ

  -- The locks make each method one step.
  pub record SafeMetrics : Type 0 where
    pub current : AgentMetrics
    pub revision : ℕ
    pub sent_revision : ℕ

  -- What is measured for one call of `collect`: total and free memory, if there are any, and the
  -- load of each processor.
  pub record Sample : Type 0 where
    pub memory : Error ⊎ Option (ℕ × ℕ)
    pub cpu : Error ⊎ List ℕ
    pub mem_stats : MemStats
    pub random : ℕ

  -- `collect`
  unfoldable pub collect : Sample → SafeMetrics → Option Error × SafeMetrics
  collect sample m =
      let d0 : AgentMetrics = record m.current {
        mem_stats = sample.mem_stats;
        poll_count = add64 m.current.poll_count 1;
        random_value = sample.random;
      } in
      let d1 : AgentMetrics = elim sample.memory [
        | inl e ↦ d0
        | inr none ↦ d0
        | inr (some (total, free)) ↦ record d0 { total_memory = total; free_memory = free }
      ] in
      let d2 : AgentMetrics = elim sample.cpu [
        | inl e ↦ d1
        | inr loads ↦ record d1 { cpu_utilization = loads }
      ] in
      (
        elim sample.memory [
          | inl e ↦ elim sample.cpu [ inl e' ↦ some (join e e') | inr loads ↦ some e ]
          | inr o ↦ elim sample.cpu [ inl e' ↦ some e' | inr loads ↦ none ]
        ],
        record m { current = d2; revision = add64 m.revision 1 },
      )

  -- Any number of them.
  unfoldable pub collect_all : List Sample → SafeMetrics → SafeMetrics
  collect_all [] m = m
  collect_all (sample ∷ samples) m = collect_all samples (collect sample m).1

  -- `markSent`
  unfoldable pub mark_sent : ℕ → SafeMetrics → SafeMetrics
  mark_sent revision m =
      if ltb m.sent_revision revision then record m { sent_revision = revision } else m

  -- `hasUnsent`
  unfoldable pub has_unsent : ℕ → SafeMetrics → Bool
  has_unsent revision m = ltb m.sent_revision revision

  -- `sendUnsentMetrics`: `deliver` is `sendAllMetricsWithRetry` of the snapshot, and `during` is
  -- what is collected while it runs, since only the lock of the sending is held.
  unfoldable pub send_unsent_metrics :
      {W : Type 0}
      → (AgentMetrics → W → Option Error × W)
      → List Sample
      → SafeMetrics
      → W
      → (Bool × Option Error) × SafeMetrics × W
  send_unsent_metrics deliver during m w =
      let revision = m.revision in
      if not (has_unsent revision m)
      then ((false, none), collect_all during m, w)
      else let (e, w') = deliver m.current w in
        let m' = collect_all during m in
        elim e [
          | some x ↦ ((false, some x), m', w')
          | none ↦ ((true, none), mark_sent revision m', w')
        ]

-- A metric of the payload of `SendRequestToServer`, of its name and its type and value as texts.
unfoldable pub updated_metrics : (Bytes → Option ℕ) → String → String → Bytes → Option Metrics
updated_metrics parse_float name m_type value =
    if str_eq m_type counter
    then elim (parse_int value) [
      | none ↦ none
      | some d ↦
          some (record { id = name; m_type = m_type; delta = some d; value = none; hash = "" })
    ]
    else if str_eq m_type gauge
    then elim (parse_float value) [
      | none ↦ none
      | some v ↦
          some (record { id = name; m_type = m_type; delta = none; value = some v; hash = "" })
    ]
    else none

-- The payload, of the entries of the map in the order of their iteration.
unfoldable pub payload_of :
    (Bytes → Option ℕ) → List (String × String × Bytes) → Option (List Metrics)
payload_of parse_float [] = some []
payload_of parse_float ((name, m_type, value) ∷ entries) =
    let rest = payload_of parse_float entries in
    elim (updated_metrics parse_float name m_type value) [
      | none ↦ none
      | some m ↦ elim rest [ none ↦ none | some ms ↦ some (m ∷ ms) ]
    ]

-- The body that is sent: encrypted, if there is a key.
unfoldable pub request_body : Option PublicKey → Bytes → Result Bytes
request_body none body = ok body
request_body (some key) body = elim (encrypt (some key) body) [
  | ok encrypted ↦ ok encrypted
  | err e ↦ err (wrap "encrypt request" e)
  | panic ↦ panic
]

-- The headers of the request.
unfoldable pub request_header : (Bytes → String → Bytes) → String → Bytes → Bytes → String → Bytes
request_header sign_body key host_ip body name =
    if str_eq name "HashSHA256" && not (str_eq key "")
    then sign_body body key
    else if str_eq name "X-Real-IP"
    then host_ip
    else if str_eq name "Accept-Encoding"
    then codes "gzip"
    else if str_eq name "Content-Type"
    then codes "application/json"
    else []
