-- ===== src/Agent/Revisions.antt =====
-- No metric is lost between collecting and sending: the revisions of SafeMetrics,
-- internal/agent/agent.go.
use go_yandex_metrics.Base.{
  ◌+◌, ◌≤◌, ◌<◌, ◌≡◌, refl, inl, inr, Bool, true, false, Option, none, some, List, [], ◌∷◌, arith,
  ltb, Bool-cases, Option-cases, length, Error,
}
use go_yandex_metrics.Base.Int64.{word_mod}
use go_yandex_metrics.Agent.{
  AgentMetrics, SafeMetrics, Sample, collect, collect_all, mark_sent, has_unsent,
  send_unsent_metrics,
}

module _ (MemStats : Type 0) where
  pub collect-revision :
      (sample : Sample MemStats) (m : SafeMetrics MemStats)
      → m.revision + 1 < word_mod
      → (collect MemStats sample m).1.revision ≡ m.revision + 1
  unfolding collect
  collect-revision sample m h = omega arith

  collect_all-revision :
      (samples : List (Sample MemStats)) (m : SafeMetrics MemStats)
      → m.revision + length samples < word_mod
      → ((collect_all MemStats samples m).revision ≡ m.revision + length samples)
        × ((collect_all MemStats samples m).sent_revision ≡ m.sent_revision)
  unfolding collect_all collect
  collect_all-revision [] m h = (omega arith, refl)
  collect_all-revision (sample ∷ samples) m h =
      let rest =
        collect_all-revision samples (collect MemStats sample m).1
          (omega (arith, collect-revision sample m (omega arith))) in
      (omega (arith, rest.0, collect-revision sample m (omega arith)), rest.1)

  -- How `sendUnsentMetrics` ends: there was nothing new, and nothing was sent; or what was current
  -- when it began was delivered, and exactly that revision counts as sent; or the delivery failed,
  -- and there is still something to send.
  pub data SendEnds {W : Type 0} (deliver : AgentMetrics MemStats → W → Option Error × W)
      (m : SafeMetrics MemStats) (w : W) (r : (Bool × Option Error) × SafeMetrics MemStats × W)
      : Type 0 where
    idle :
        m.sent_revision ≡ m.revision
        → r.0 ≡ (false, none)
        → r.2 ≡ w
        → r.1.sent_revision ≡ m.sent_revision
        → SendEnds deliver m w r
    delivered :
        deliver m.current w ≡ (none, r.2)
        → r.0 ≡ (true, none)
        → r.1.sent_revision ≡ m.revision
        → SendEnds deliver m w r
    failed :
        (e : Error)
        → deliver m.current w ≡ (some e, r.2)
        → r.0 ≡ (false, some e)
        → r.1.sent_revision ≡ m.sent_revision
        → m.sent_revision < m.revision
        → SendEnds deliver m w r

  -- `sendUnsentMetrics` with any collecting while it delivers, from metrics whose sent revision is
  -- not above the current one, as long as the revisions stay below 2^64: it ends as `SendEnds`
  -- says, the revision has grown by the number of collections and not more, and the sent revision
  -- is again not above it, so that what was collected in between is still unsent.
  pub send_unsent_metrics-SendEnds :
      {W : Type 0} (deliver : AgentMetrics MemStats → W → Option Error × W)
      (during : List (Sample MemStats)) (m : SafeMetrics MemStats) (w : W)
      → m.sent_revision ≤ m.revision
      → m.revision + length during < word_mod
      → let (r, m', w') = send_unsent_metrics MemStats deliver during m w in
        SendEnds deliver m w (r, m', w')
        × (m'.revision ≡ m.revision + length during)
        × (m'.sent_revision ≤ m'.revision)
  unfolding send_unsent_metrics has_unsent mark_sent
  send_unsent_metrics-SendEnds deliver during m w le small =
      let grown = collect_all-revision during m small in
      elim (Bool-cases (ltb m.sent_revision m.revision)) [
        | inr none_new ↦ rw none_new (
          idle (ground (arith, none_new)) refl refl grown.1,
          grown.0,
          ground (arith, grown.0, grown.1),
        )
        | inl some_new ↦ elim (Option-cases (deliver m.current w).0) [
          | inr (e, h) ↦ rw some_new (
              rw h (
                failed e (ground (arith, h)) refl grown.1 (ground (arith, some_new)),
                grown.0,
                omega (arith, grown.0, grown.1),
              ))
          | inl h ↦ (
            delivered (ground (arith, h, some_new)) (ground (arith, h, some_new))
                (ground (arith, h, some_new, grown.1)),
            ground (arith, h, some_new, grown.0),
            ground (arith, h, some_new, grown.0, grown.1),
          )
        ]
      ]
