-- ===== src/Agent/Stops.antt =====
-- What has been delivered when the agent stops, `RunAgent` of internal/agent/agent.go.
use go_yandex_metrics.Base.{
  ◌^◌, ◌<◌, ◌≡◌, refl, ◌⊎◌, inl, inr, Bool, false, not, ◌&&◌, ◌||◌, Option, some, List, arith, leb,
  ◌==◌, Bool-cases, Error, Result, ok, err,
}
use go_yandex_metrics.Base.Int64.{word_mod}
use go_yandex_metrics.Crypto.{PublicKey}
use go_yandex_metrics.Agent.{AgentMetrics, SafeMetrics}
use go_yandex_metrics.Agent.Table.{MemStats}
use go_yandex_metrics.Agent.Run.{
  Arguments, AgentStartup, agent_key, agent_client, Task, run_loop, run_agent, new_metrics, ticks,
  is_empty,
}
use go_yandex_metrics.Agent.Backed.{
  collections, IsBacked, run_tasks-IsBacked, LastDelivered, send_last-LastDelivered,
}

module _ {W : Type 0}
    (deliver : Option PublicKey → Bool → AgentMetrics MemStats → W → Option Error × W) where
  -- The same with the key and the way to deliver that the agent has loaded.
  pub data AgentEnds (lib : AgentStartup) (args : Arguments) (tasks : List Task)
      (m : SafeMetrics MemStats) : Type 0 where
    with_client :
        (key : Option PublicKey) (by_grpc : Bool)
        → agent_key lib args ≡ inr key
        → agent_client lib args ≡ inr by_grpc
        → LastDelivered deliver key by_grpc tasks m
        → AgentEnds lib args tasks m

  new-IsBacked :
      (key : Option PublicKey) (by_grpc : Bool) → IsBacked deliver key by_grpc new_metrics
  new-IsBacked key by_grpc = record { counts = refl; bounded = omega arith; backed = λ e. inl refl }

  run_loop-LastDelivered :
      (args : Arguments) (key : Option PublicKey) (by_grpc : Bool) (tasks : List Task) (w : W)
      → collections tasks < word_mod
      → (run_loop deliver args key by_grpc tasks new_metrics w).0 ≡ some (ok tt)
      → LastDelivered deliver key by_grpc tasks
          (run_loop deliver args key by_grpc tasks new_metrics w).1
  unfolding run_loop
  run_loop-LastDelivered args key by_grpc tasks w small =
      elim (Bool-cases (
        leb (2 ^ 63) args.rate_limit
        || not (ticks args.poll_count)
        || not (ticks args.report_interval))) [
          | inl bad ↦ rw bad (λ ended. absurd (cc ended))
          | inr good ↦ elim (Bool-cases (args.rate_limit == 0 && not (is_empty tasks))) [
            | inl stuck ↦ rw (good, stuck) (λ ended. absurd (cc ended))
            | inr free ↦
                rw (good, free)
                  (λ ended.
                    let ran =
                      run_tasks-IsBacked deliver key by_grpc tasks new_metrics w
                        (omega (arith, small)) (new-IsBacked key by_grpc) in
                    send_last-LastDelivered deliver key by_grpc tasks _ _
                      (omega (arith, ran.0, small)) (omega (arith, ran.0)) ran.1
                      (ground (arith, ended)))
          ]
        ]

  -- An agent that is not stopped before its timer and returns no error, by any way of delivering,
  -- whatever its tasks delivered or failed to deliver before, as long as the collections stay below
  -- 2^64: either it has collected nothing, or the snapshot with which it ends was delivered without
  -- an error, with the key and by the client that it has loaded. The PollCount of that snapshot is
  -- the number of all collections of the run; the snapshots that later collections replaced before
  -- they were sent are in it by that count alone.
  pub run_agent-delivers_last :
      (lib : AgentStartup) (args : Arguments) (tasks : List Task) (w : W)
      → collections tasks < word_mod
      → (run_agent deliver lib args false tasks w).0 ≡ some (ok tt)
      → AgentEnds lib args tasks (run_agent deliver lib args false tasks w).1
  unfolding run_agent
  run_agent-delivers_last lib args tasks w small = by_key (agent_key lib args) refl
    where
      by_client :
          (key : Option PublicKey) (c : Error ⊎ Bool)
          → agent_key lib args ≡ inr key
          → agent_client lib args ≡ c
          → let r : Option (Result {0} Unit) × SafeMetrics MemStats × W = elim c [
            | inl e ↦ (some (err e), new_metrics, w)
            | inr by_grpc ↦ run_loop deliver args key by_grpc tasks new_metrics w
          ] in
            r.0 ≡ some (ok tt) → AgentEnds lib args tasks r.1
      by_client key (inl e) loaded made = λ ended. absurd (cc ended)
      by_client key (inr by_grpc) loaded made = λ ended.
          with_client key by_grpc loaded made
            (run_loop-LastDelivered args key by_grpc tasks w small ended)

      by_key :
          (k : Error ⊎ Option PublicKey)
          → agent_key lib args ≡ k
          → let r : Option (Result {0} Unit) × SafeMetrics MemStats × W = elim k [
            | inl e ↦ (some (err e), new_metrics, w)
            | inr key ↦ elim (agent_client lib args) [
              | inl e ↦ (some (err e), new_metrics, w)
              | inr by_grpc ↦ run_loop deliver args key by_grpc tasks new_metrics w
            ]
          ] in
            r.0 ≡ some (ok tt) → AgentEnds lib args tasks r.1
      by_key (inl e) loaded = λ ended. absurd (cc ended)
      by_key (inr key) loaded = by_client key (agent_client lib args) loaded refl
