-- ===== src/Tests/Running.antt =====
-- The writers of a response, and the pool of workers, on concrete runs.
use mathlib.Core.List.{append_assoc}
use go_yandex_metrics.Base.{
  ℕ, ◌≤◌, ◌≡◌, refl, ap, ◌∙◌, ◌⊎◌, inr, false, none, some, List, [], ◌∷◌, ◌++◌, arith, length,
  Result, ok,
}
use go_yandex_metrics.Base.Text.{Bytes}
use go_yandex_metrics.Handler.Http.{
  WriterCall, set_header, write_header, write, text, Chunk, buffered_status,
}
use go_yandex_metrics.Handler.Writers.{contains, Compressor, nothing_sent, net_writer, init_routes}
use go_yandex_metrics.Handler.Signed.{concat, compressed, IsLossless}
use go_yandex_metrics.Handler.Served.{IsServed, init_routes-IsServed}
use go_yandex_metrics.Workers.{
  Pool, new_pool, start, add_task, close, receive, finish, Step, adds, receives, finishes, closes,
  Steps, more, HasEnded,
}
use go_yandex_metrics.Workers.Bounds.{total}
use go_yandex_metrics.Workers.Drain.{work, steps_of, steps-bounded, close-drains}
use go_yandex_metrics.Tests.Data.{post}

-- A compressor that keeps all it gets until the end.
abbrev stored_only : Compressor
stored_only = record {
  State = Bytes;
  new_writer = inr [];
  write_bytes = λ b z. ([], z ++ b);
  close = λ z. z ∷ [];
}

compressed-concat :
    (bs : List Bytes) (z : Bytes) → concat (compressed stored_only z bs) ≡ z ++ concat bs
unfolding concat compressed
compressed-concat [] z = refl
compressed-concat (b ∷ bs) z = compressed-concat bs (z ++ b) ∙ append_assoc z b (concat bs)

gunzip : Bytes → Result Bytes
gunzip b = ok b

lossless : IsLossless stored_only gunzip
unfolding gunzip
lossless = record {
  start = [];
  starts = refl;
  reads = λ bs. ap {B = Result Bytes} ok (compressed-concat bs []);
}

-- A handler that sets the status twice.
abbrev made : List WriterCall
made =
    set_header "Content-Type" "text/plain"
    ∷ write_header 500
    ∷ write (text "sorry")
    ∷ write_header 404
    ∷ []

abbrev render : Chunk → Bytes
render chunk = 63 ∷ []

init_routes-IsServed_example :
    IsServed gunzip
      (λ body key. 7 ∷ body)
      "secret"
      (λ body. none)
      (λ e. [])
      stored_only
      render
      (λ req. made)
      false
      (some post)
      (init_routes
        (λ body. none)
        (λ e. [])
        stored_only
        (λ body key. 7 ∷ body)
        "secret"
        render
        (λ req. made)
        post
        net_writer
        nothing_sent)
unfolding contains
init_routes-IsServed_example =
    init_routes-IsServed gunzip (λ body key. 7 ∷ body) "secret" (λ body. none) (λ e. []) stored_only
      render (λ req. made) post lossless refl (λ r. unfold buffered_status in refl)

-- A pool of one worker that gets two tasks and is closed.
abbrev started : Pool ℕ
started = start ℕ (new_pool ℕ 1)

abbrev p1 : Pool ℕ
p1 = add_task ℕ 5 started

abbrev p2 : Pool ℕ
p2 = receive ℕ 5 [] 0 p1

abbrev p3 : Pool ℕ
p3 = add_task ℕ 6 p2

abbrev p4 : Pool ℕ
p4 = close ℕ p3

abbrev p5 : Pool ℕ
p5 = finish ℕ [] 5 [] p4

to_close : Steps ℕ started p4
to_close = more started p1 p4 (adds started 5 refl (omega arith)) (
    more p1 p2 p4 (receives p1 5 [] 0 refl refl) (
      more p2 p3 p4 (adds p2 6 refl (omega arith))
        (more p3 p4 p4 (closes p3 refl) (Steps.done p4))))

steps-bounded_example : (length p4.running ≤ 1) × (length p4.task_chan ≤ 1)
steps-bounded_example = steps-bounded 1 p4 to_close

abbrev to_end : Steps ℕ p4 p5
to_end = more p4 p5 p5 (finishes p4 [] [] 5 refl) (Steps.done p5)

close-drains_example :
    (steps_of p4 p5 to_end ≤ work p4)
    × (HasEnded ℕ p5 ⊎ ((r : Pool ℕ) × Step ℕ p5 r))
    × (HasEnded ℕ p5 → (f : ℕ → ℕ) → total f p5.finished ≡ total f p5.added)
close-drains_example = close-drains 1 p4 p5 to_end to_close refl
