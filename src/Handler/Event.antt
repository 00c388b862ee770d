-- ===== src/Handler/Event.antt =====
-- internal/audit/request.go: the event of a request and the address that it names. Spaces are the
-- ASCII ones.
use go_yandex_metrics.Base.{
  ℕ, String, Bool, not, ◌&&◌, ◌||◌, none, some, List, [], ◌∷◌, leb, ◌==◌, if◌then◌else◌,
}
use mathlib.Core.List.{reverse}
use go_yandex_metrics.Base.Text.{Bytes, bytes_eq}
use go_yandex_metrics.Handler.Http.{Request, Event, Library}

is_space : ℕ → Bool
is_space c = c == 32 || (leb 9 c && leb c 13)

unfoldable pub trim_left : Bytes → Bytes
unfolding is_space
trim_left [] = []
trim_left (c ∷ rest) = if is_space c then trim_left rest else c ∷ rest

-- `strings.TrimSpace`
unfoldable pub trim_space : Bytes → Bytes
unfolding trim_left
trim_space s = reverse (trim_left (reverse (trim_left s)))

-- The first part of `strings.Split(value, ",")`.
unfoldable pub first_part : Bytes → Bytes
first_part [] = []
first_part (c ∷ rest) = if c == b',' then [] else c ∷ first_part rest

-- `extractIPAddress`: the two headers in order, then the remote address.
unfoldable pub extract_ip_address : Library → Request → Bytes
extract_ip_address lib req =
    let forwarded = trim_space (req.header "X-Forwarded-For") in
    let real = trim_space (req.header "X-Real-IP") in
    if not (bytes_eq forwarded [])
    then trim_space (first_part forwarded)
    else if not (bytes_eq real [])
    then real
    else elim (lib.split_host_port (trim_space req.remote_addr)) [
      | some host ↦ host
      | none ↦ trim_space req.remote_addr
    ]

-- `NewEvent`
unfoldable pub new_event : Library → List String → Request → Event
new_event lib metric_names req = record {
  timestamp = req.seconds;
  metrics = metric_names;
  ip_address = extract_ip_address lib req;
}
