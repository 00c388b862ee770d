-- ===== src/Persistence/Atomic.antt =====
-- `WriteEvent` of internal/server/file_converter/file_converter.go replaces the file at once.
use go_yandex_metrics.Base.{
  ◌≡◌, refl, ◌⊎◌, inl, inr, Option, none, some, List, arith, Option-cases, All, Error,
}
use go_yandex_metrics.Base.Text.{Bytes}
use go_yandex_metrics.Model.{Metrics}
use go_yandex_metrics.Persistence.{Disk, Faults, Codec, write_event}

-- How a write ends: with an error and the old file, or without one and the whole new text.
pub data WriteEnds (codec : Codec) (ms : List Metrics) (d : Disk) (e : Option Error) (d' : Disk)
    : Type 0 where
  kept : (x : Error) → e ≡ some x → d'.file ≡ d.file → WriteEnds codec ms d e d'
  replaced :
      (text : Bytes)
      → e ≡ none
      → codec.encode ms ≡ inr text
      → d'.file ≡ some text
      → d'.temp ≡ none
      → WriteEnds codec ms d e d'

-- A sum is one of its two sides.
pub Sum-cases : {A B : Type 0} (s : A ⊎ B) → ((a : A) × (s ≡ inl a)) ⊎ ((b : B) × (s ≡ inr b))
Sum-cases (inl a) = inl (a, refl)
Sum-cases (inr b) = inr (b, refl)

-- `WriteEvent`, whichever of its calls fail: at every instant before it returns the file is the old
-- one; when it returns, the file is the old one if there is an error, and holds the whole encoded
-- list, with no temporary file left, if there is none.
pub write_event-WriteEnds :
    (codec : Codec) (f : Faults) (ms : List Metrics) (d : Disk)
    → let (e, d', seen) = write_event codec f ms d in
      WriteEnds codec ms d e d' × All (λ (x : Disk). x.file ≡ d.file) seen
unfolding write_event
write_event-WriteEnds codec f ms d = elim (Option-cases f.create_temp) [
  | inr (x, h1) ↦ (kept x (ground (arith, h1)) (ground (arith, h1)), ground (arith, h1))
  | inl h1 ↦ elim (Sum-cases (codec.encode ms)) [
    | inl (x, h2) ↦
        (kept x (ground (arith, h1, h2)) (ground (arith, h1, h2)), ground (arith, h1, h2))
    | inr (text, h2) ↦ elim (Option-cases f.write) [
      | inr ((x, part), h3) ↦ (
        kept x (ground (arith, h1, h2, h3)) (ground (arith, h1, h2, h3)),
        ground (arith, h1, h2, h3),
      )
      | inl h3 ↦ ended text h1 h2 h3
    ]
  ]
]
  where
    ended :
        (text : Bytes)
        → f.create_temp ≡ none
        → codec.encode ms ≡ inr text
        → f.write ≡ none
        → let (e, d', seen) = write_event codec f ms d in
          WriteEnds codec ms d e d' × All (λ (x : Disk). x.file ≡ d.file) seen
    ended text h1 h2 h3 = elim (Option-cases f.sync) [
      | inr (x, h4) ↦ (
        kept x (ground (arith, h1, h2, h3, h4)) (ground (arith, h1, h2, h3, h4)),
        ground (arith, h1, h2, h3, h4),
      )
      | inl h4 ↦ elim (Option-cases f.close) [
        | inr (x, h5) ↦ (
          kept x (ground (arith, h1, h2, h3, h4, h5)) (ground (arith, h1, h2, h3, h4, h5)),
          ground (arith, h1, h2, h3, h4, h5),
        )
        | inl h5 ↦ elim (Option-cases f.rename) [
          | inr (x, h6) ↦ (
            kept x (ground (arith, h1, h2, h3, h4, h5, h6))
                (ground (arith, h1, h2, h3, h4, h5, h6)),
            ground (arith, h1, h2, h3, h4, h5, h6),
          )
          | inl h6 ↦ (
            replaced text (ground (arith, h1, h2, h3, h4, h5, h6)) h2
                (ground (arith, h1, h2, h3, h4, h5, h6)) (ground (arith, h1, h2, h3, h4, h5, h6)),
            ground (arith, h1, h2, h3, h4, h5, h6),
          )
        ]
      ]
    ]
