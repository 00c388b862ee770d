-- ===== src/Agent/Backed.antt =====
-- What the sent revision of the agent stands for, over the tasks of `RunAgent` in
-- internal/agent/agent.go: a snapshot that was delivered.
use go_yandex_metrics.Base.{
  ℕ, suc, ◌+◌, ◌≤◌, ◌<◌, ◌≡◌, refl, sym, ◌∙◌, subst, ◌⊎◌, inl, inr, Bool, Option, none, List, [],
  ◌∷◌, arith, length, Error, ok,
}
use go_yandex_metrics.Base.Int64.{word_mod}
use go_yandex_metrics.Crypto.{PublicKey}
use go_yandex_metrics.Agent.{
  AgentMetrics, SafeMetrics, Sample, collect, collect_all, mark_sent, send_unsent_metrics,
}
use go_yandex_metrics.Agent.Revisions.{
  SendEnds, idle, delivered, failed, send_unsent_metrics-SendEnds, collect-revision,
}
use go_yandex_metrics.Agent.Table.{MemStats}
use go_yandex_metrics.Agent.Run.{Task, collecting, sending, run_tasks, send_last}

-- How often the tasks collect.
unfoldable pub collections : List Task → ℕ
collections [] = 0
collections (collecting sample ∷ tasks) = suc (collections tasks)
collections (sending during ∷ tasks) = length during + collections tasks

collect-sent :
    (sample : Sample MemStats) (m : SafeMetrics MemStats)
    → (collect MemStats sample m).1.sent_revision ≡ m.sent_revision
unfolding collect
collect-sent sample m = refl

-- PollCount counts the collections, as the revision does.
collect-counts :
    (sample : Sample MemStats) (m : SafeMetrics MemStats)
    → m.current.poll_count ≡ m.revision
    → (collect MemStats sample m).1.current.poll_count ≡ (collect MemStats sample m).1.revision
unfolding collect
collect-counts sample m same = ground (arith, same)

collect_all-counts :
    (samples : List (Sample MemStats)) (m : SafeMetrics MemStats)
    → m.current.poll_count ≡ m.revision
    → (collect_all MemStats samples m).current.poll_count
      ≡ (collect_all MemStats samples m).revision
unfolding collect_all
collect_all-counts [] m same = same
collect_all-counts (sample ∷ samples) m same =
    collect_all-counts samples (collect MemStats sample m).1 (collect-counts sample m same)

module _ {W : Type 0}
    (deliver : Option PublicKey → Bool → AgentMetrics MemStats → W → Option Error × W)
    (key : Option PublicKey) (by_grpc : Bool) where
  -- A snapshot that was delivered without an error, in some world.
  abbrev pub WasDelivered : AgentMetrics MemStats → Type 0
  WasDelivered snapshot = (w w' : W) × (deliver key by_grpc snapshot w ≡ (none, w'))

  -- What the sent revision stands for: where it is the current one, and something was collected, the
  -- current snapshot was delivered; and PollCount counts the collections.
  pub record IsBacked (m : SafeMetrics MemStats) : Type 0 where
    pub counts : m.current.poll_count ≡ m.revision
    pub bounded : m.sent_revision ≤ m.revision
    pub backed : m.sent_revision ≡ m.revision → (m.revision ≡ 0) ⊎ WasDelivered m.current

  collect-IsBacked :
      (sample : Sample MemStats) (m : SafeMetrics MemStats)
      → m.revision + 1 < word_mod
      → IsBacked m
      → IsBacked (collect MemStats sample m).1
  collect-IsBacked sample m small b =
      let grown = collect-revision MemStats sample m small in
      let kept : (collect MemStats sample m).1.sent_revision ≡ m.sent_revision =
        collect-sent sample m in
      record {
        counts = collect-counts sample m b.counts;
        bounded = omega (arith, grown, kept, b.bounded);
        backed = λ e. absurd (omega (arith, e, grown, kept, b.bounded));
      }

  send-counts :
      (during : List (Sample MemStats)) (m : SafeMetrics MemStats) (w : W)
      → m.current.poll_count ≡ m.revision
      → let m' = (send_unsent_metrics MemStats (deliver key by_grpc) during m w).1 in
        m'.current.poll_count ≡ m'.revision
  unfolding send_unsent_metrics mark_sent
  send-counts during m w same = ground (arith, collect_all-counts during m same)

  send-current :
      (m : SafeMetrics MemStats) (w : W)
      → (send_unsent_metrics MemStats (deliver key by_grpc) [] m w).1.current ≡ m.current
  unfolding send_unsent_metrics collect_all mark_sent
  send-current m w = ground arith

  -- What a sending during which nothing is collected leaves is backed.
  quiet_backed :
      (m m' : SafeMetrics MemStats) (w : W) (x : Bool × Option Error) (w' : W)
      → SendEnds MemStats (deliver key by_grpc) m w (x, m', w')
      → m'.revision ≡ m.revision
      → m'.current ≡ m.current
      → IsBacked m
      → m'.sent_revision ≡ m'.revision
      → (m'.revision ≡ 0) ⊎ WasDelivered m'.current
  quiet_backed m m' w x w' (idle e _ _ _) same same' b e' = elim (b.backed e) [
    | inl none_yet ↦ inl (same ∙ none_yet)
    | inr was ↦ inr (subst WasDelivered (sym same') was)
  ]
  quiet_backed m m' w x w' (delivered does _ _) same same' b e' =
      inr (subst WasDelivered (sym same') (w, w', does))
  quiet_backed m m' w x w' (failed _ _ _ kept older) same same' b e' =
      absurd (omega (arith, kept, older, same, e'))

  -- What was collected while a sending ran is still unsent.
  sent-bound :
      (m m' : SafeMetrics MemStats) (w : W) (x : Bool × Option Error) (w' : W)
      → SendEnds MemStats (deliver key by_grpc) m w (x, m', w')
      → m.sent_revision ≤ m.revision
      → m'.sent_revision ≤ m.revision
  sent-bound m m' w x w' (idle _ _ _ e) le = omega (arith, e, le)
  sent-bound m m' w x w' (delivered _ _ e) le = omega (arith, e)
  sent-bound m m' w x w' (failed _ _ _ e _) le = omega (arith, e, le)

  send-IsBacked :
      (during : List (Sample MemStats)) (m : SafeMetrics MemStats) (w : W)
      → m.revision + length during < word_mod
      → IsBacked m
      → IsBacked (send_unsent_metrics MemStats (deliver key by_grpc) during m w).1
  send-IsBacked [] m w small b =
      let sent =
        send_unsent_metrics-SendEnds MemStats (deliver key by_grpc) [] m w b.bounded small in
      record {
        counts = send-counts [] m w b.counts;
        bounded = sent.2;
        backed = quiet_backed m _ w _ _ sent.0 (omega (arith, sent.1)) (send-current m w) b;
      }
  send-IsBacked (sample ∷ during) m w small b =
      let sent =
        send_unsent_metrics-SendEnds MemStats (deliver key by_grpc) (sample ∷ during) m w b.bounded
          small in
      record {
        counts = send-counts (sample ∷ during) m w b.counts;
        bounded = sent.2;
        backed = λ e. absurd (omega (arith, e, sent.1, sent-bound m _ w _ _ sent.0 b.bounded));
      }

  -- The tasks keep that, and the revision counts the collections.
  pub run_tasks-IsBacked :
      (tasks : List Task) (m : SafeMetrics MemStats) (w : W)
      → m.revision + collections tasks < word_mod
      → IsBacked m
      → let m' = (run_tasks deliver key by_grpc tasks m w).0 in
        (m'.revision ≡ m.revision + collections tasks) × IsBacked m'
  unfolding run_tasks collections
  run_tasks-IsBacked [] m w small b = (omega arith, b)
  run_tasks-IsBacked (collecting sample ∷ tasks) m w small b =
      let grown = collect-revision MemStats sample m (omega (arith, small)) in
      let rest =
        run_tasks-IsBacked tasks (collect MemStats sample m).1 w (omega (arith, grown, small))
          (collect-IsBacked sample m (omega (arith, small)) b) in
      (omega (arith, rest.0, grown), rest.1)
  run_tasks-IsBacked (sending during ∷ tasks) m w small b =
      let sent =
        send_unsent_metrics-SendEnds MemStats (deliver key by_grpc) during m w b.bounded
          (omega (arith, small)) in
      let rest =
        run_tasks-IsBacked tasks (send_unsent_metrics MemStats (deliver key by_grpc) during m w).1
          (send_unsent_metrics MemStats (deliver key by_grpc) during m w).2
          (omega (arith, sent.1, small)) (send-IsBacked during m w (omega (arith, small)) b) in
      (omega (arith, rest.0, sent.1), rest.1)

  -- After a last sending without an error nothing is unsent.
  sent_revision-SendEnds :
      (m : SafeMetrics MemStats) (w : W) (r : (Bool × Option Error) × SafeMetrics MemStats × W)
      → SendEnds MemStats (deliver key by_grpc) m w r
      → r.0.1 ≡ none
      → r.1.sent_revision ≡ m.revision
  sent_revision-SendEnds m w r (idle e _ _ e') ended = e' ∙ e
  sent_revision-SendEnds m w r (delivered _ _ e) ended = e
  sent_revision-SendEnds m w r (failed x _ e _ _) ended = absurd (ground (arith, e, ended))

  -- The snapshot of all collections was delivered, if there was one.
  pub record LastDelivered (tasks : List Task) (m : SafeMetrics MemStats) : Type 0 where
    pub all_counted : m.current.poll_count ≡ collections tasks
    pub last_delivered : (collections tasks ≡ 0) ⊎ WasDelivered m.current

  pub send_last-LastDelivered :
      (tasks : List Task) (m : SafeMetrics MemStats) (w : W)
      → m.revision < word_mod
      → m.revision ≡ collections tasks
      → IsBacked m
      → (send_last deliver key by_grpc m w).0 ≡ ok tt
      → LastDelivered tasks (send_last deliver key by_grpc m w).1
  unfolding send_last
  send_last-LastDelivered tasks m w small all_there b ended =
      let sent =
        send_unsent_metrics-SendEnds MemStats (deliver key by_grpc) [] m w b.bounded
          (omega (arith, small)) in
      let b' = send-IsBacked [] m w (omega (arith, small)) b in
      let current = sent_revision-SendEnds m w _ sent.0 (ground (arith, ended)) in
      record {
        all_counted = omega (arith, b'.counts, sent.1, all_there);
        last_delivered = elim (b'.backed (omega (arith, current, sent.1))) [
          | inl none_yet ↦ inl (omega (arith, none_yet, sent.1, all_there))
          | inr was ↦ inr was
        ];
      }
