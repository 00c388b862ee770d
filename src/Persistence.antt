-- ===== src/Persistence.antt =====
-- internal/server/file_converter/file_converter.go and the saving and restoring of
-- internal/server/server.go. The file system is the file of the metrics and one temporary file; each
-- call on it may fail. JSON is a parameter.
pub mod Atomic
pub mod Restart
pub mod Loop
use go_yandex_metrics.Base.{
  ℕ, ◌+◌, ◌*◌, ◌%◌, ◌^◌, ◌⊎◌, inl, inr, Bool, not, ◌&&◌, Option, none, some, List, [], ◌∷◌, ltb,
  ◌==◌, if◌then◌else◌, Error, wrap, Result, ok, err, panic,
}
use go_yandex_metrics.Base.Text.{Bytes}
use go_yandex_metrics.Model.{Metrics}
use go_yandex_metrics.Repository.Merge.{Context}
use go_yandex_metrics.Repository.Contract.{Storage}
use go_yandex_metrics.Service

-- The two files; `none` is a file that does not exist.
pub record Disk : Type 0 where
  pub file : Option Bytes
  pub temp : Option Bytes

-- What each call of the operating system answers; a write that fails may have written a part.
pub record Faults : Type 0 where
  pub create_temp : Option Error
  pub write : Option (Error × Bytes)
  pub sync : Option Error
  pub close : Option Error
  pub rename : Option Error
  pub remove : Option Error

-- `Encode` and `Decode` of encoding/json on a list of metrics; `none` is `io.EOF`.
pub record Codec : Type 0 where
  pub encode : List Metrics → Error ⊎ Bytes
  pub decode : Bytes → Option (Error ⊎ List Metrics)

-- The deferred `os.Remove` of the temporary file, whose error is dropped.
abbrev pub removed : Faults → Disk → Disk
removed f d = elim f.remove [ some e ↦ d | none ↦ record d { temp = none } ]

-- `WriteEvent` of Producer: its error, the disk after it, and the disks after each call before.
unfoldable pub write_event : Codec → Faults → List Metrics → Disk → Option Error × Disk × List Disk
write_event codec f metrics_list d = elim f.create_temp [
  | some e ↦ (some e, d, [])
  | none ↦
      let d1 = record d { temp = some [] } in
      elim (codec.encode metrics_list) [
        | inl e ↦ (some e, removed f d1, d1 ∷ [])
        | inr text ↦ elim f.write [
          | some (e, part) ↦
              let d2 = record d { temp = some part } in (some e, removed f d2, d1 ∷ d2 ∷ [])
          | none ↦
              let d2 = record d { temp = some text } in
              elim f.sync [
                | some e ↦ (some e, removed f d2, d1 ∷ d2 ∷ [])
                | none ↦ elim f.close [
                  | some e ↦ (some e, removed f d2, d1 ∷ d2 ∷ [])
                  | none ↦ elim f.rename [
                    | some e ↦ (some e, removed f d2, d1 ∷ d2 ∷ [])
                    | none ↦ (none, record { file = some text; temp = none }, d1 ∷ d2 ∷ [])
                  ]
                ]
              ]
        ]
      ]
]

-- `ReadMetricsList` of Consumer.
unfoldable pub read_metrics_list : Codec → Bytes → Error ⊎ List Metrics
read_metrics_list codec content = elim (codec.decode content) [
  | none ↦ inr []
  | some (inl e) ↦ inl e
  | some (inr metrics_list) ↦ inr metrics_list
]

-- `NewConsumer`, whose open creates the file if there is none: what it reads, and the disk.
unfoldable pub new_consumer : Option Error → Disk → (Error ⊎ Bytes) × Disk
new_consumer (some e) d = (inl e, d)
new_consumer none d = elim d.file [
  | some content ↦ (inr content, d)
  | none ↦ (inr [], record d { file = some [] })
]

module _ (codec : Codec) (st : Storage) where
  -- `saveMetrics`
  unfoldable pub save_metrics : Faults → st.State → Disk → Result {0} Unit × st.State × Disk
  save_metrics f s d =
      let (r, s') = Service.get_all_metrics st s in
      elim r [
        | panic ↦ (panic, s', d)
        | err e ↦ (err (wrap "failed to get all metrics for file" e), s', d)
        | ok metrics_list ↦
            let (e, d', seen) = write_event codec f metrics_list d in
            elim e [
              | some x ↦ (err (wrap "producer write error" x), s', d')
              | none ↦ (ok tt, s', d')
            ]
      ]

  -- The loop of the restoring: the contexts are what the context answers during each save.
  unfoldable pub restore_all :
      (ℕ → Context) → ℕ → List Metrics → st.State → Result {0} Unit × st.State
  restore_all ctxs n [] s = (ok tt, s)
  restore_all ctxs n (m ∷ ms) s =
      let (r, s') = Service.create_or_update_metrics st (ctxs n) m s in
      elim r [
        | panic ↦ (panic, s')
        | err e ↦ (err (wrap "restore metric" e), s')
        | ok new ↦ restore_all ctxs (n + 1) ms s'
      ]

  -- The first part of `SaveMetricsToFileWithContext`, before its goroutine.
  unfoldable pub restore :
      Option Error → (ℕ → Context) → st.State → Disk → Result {0} Unit × st.State × Disk
  restore open_error ctxs s d =
      let (content, d') = new_consumer open_error d in
      elim content [
        | inl e ↦ (err (wrap "consumer: can't open file" e), s, d')
        | inr text ↦ elim (read_metrics_list codec text) [
          | inl e ↦ (err (wrap "decoder error" e), s, d')
          | inr metrics_list ↦ let (r, s') = restore_all ctxs 0 metrics_list s in (r, s', d')
        ]
      ]

-- What the goroutine of `SaveMetricsToFileWithContext` waits for, with what the calls of the save
-- answer, and what the other goroutines do to the storage in between.
pub data Moment (st : Storage) : Type 0 where
  tick done : Faults → Moment st
  elsewhere : (st.State → st.State) → Moment st

module _ (codec : Codec) (st : Storage) where
  -- An int64 above zero, by its pattern.
  abbrev pub is_positive : ℕ → Bool
  is_positive n = not (n == 0) && ltb n (2 ^ 63)

  -- The goroutine's loop, over what happens in order. Without a positive interval there is no ticker,
  -- and no tick is received. It ends at a failed save or at the end of the context; `none` is its nil
  -- error or that it goes on.
  unfoldable pub saving_loop :
      ℕ → List (Moment st) → st.State → Disk → Option (Result {0} Unit) × st.State × Disk
  unfolding save_metrics
  saving_loop store_interval [] s d = (none, s, d)
  saving_loop store_interval (elsewhere change ∷ moments) s d =
      saving_loop store_interval moments (change s) d
  saving_loop store_interval (tick f ∷ moments) s d =
      let (r, s', d') = save_metrics codec st f s d in
      let rest = saving_loop store_interval moments s' d' in
      let unticked = saving_loop store_interval moments s d in
      if not (is_positive store_interval)
      then unticked
      else elim r [ ok _ ↦ rest | err e ↦ (some (err e), s', d') | panic ↦ (some panic, s', d') ]
  saving_loop store_interval (done f ∷ moments) s d =
      let (r, s', d') = save_metrics codec st f s d in (some r, s', d')

  -- The goroutine of `SaveMetricsToFileWithContext`. A positive interval is a duration of that many
  -- seconds, an int64 of nanoseconds that may overflow; `NewTicker` panics if it is not positive.
  unfoldable pub keep_saving :
      ℕ → List (Moment st) → st.State → Disk → Option (Result {0} Unit) × st.State × Disk
  unfolding saving_loop
  keep_saving store_interval moments s d =
      if is_positive store_interval && not (is_positive ((store_interval * 1000000000) % 2 ^ 64))
      then (some panic, s, d)
      else saving_loop store_interval moments s d
