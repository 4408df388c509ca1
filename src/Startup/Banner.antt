-- ===== src/Startup/Banner.antt =====
-- The text that `main` prints before it serves: `startup_banner` of src/banner.rs. How an address and a number read is Rust's, and an argument.
use otelview_postgres.Common.{
  ℕ, ◌≡◌, refl, true, List, [], ◌∷◌, ◌++◌, Str, text, starts_with, contains, arith,
}
use otelview_postgres.Startup.{SocketAddr}

-- Each line with its end.
abbrev lines : List Str → Str
lines [] = []
lines (l ∷ ls) = l ++ (10 ∷ lines ls)

-- `LOGO`, and the end of its line.
abbrev pub logo : Str
logo = lines (
    text "        _       _       _"
    ∷ text "   ___ | |_ ___| |_   _(_) _____      _____ _ __      _ __   __ _"
    ∷ text "  / _ \\| __/ _ \\ \\ \\ / / |/ _ \\ \\ /\\ / / _ \\ '__|____| '_ \\ / _` |"
    ∷ text " | (_) | ||  __/ |\\ V /| |  __/\\ V  V /  __/ | |_____| |_) | (_| |"
    ∷ text "  \\___/ \\__\\___|_| \\_/ |_|\\___| \\_/\\_/ \\___|_|       | .__/ \\__, |"
    ∷ text "                                                     |_|    |___/    "
    ∷ [])

abbrev heading : Str
heading = lines (
    text ""
    ∷ text "  PostgreSQL storage for traces, logs and metrics is ready"
    ∷ text "  ------------------------------------------------------------"
    ∷ [])

abbrev services : Str
services = lines (
    text "  OTLP writes     opentelemetry.proto.collector.trace.v1.TraceService"
    ∷ text "                  opentelemetry.proto.collector.logs.v1.LogsService"
    ∷ text "                  opentelemetry.proto.collector.metrics.v1.MetricsService"
    ∷ text "  Trace reads     jaeger.storage.v2.TraceReader"
    ∷ text "  Dependencies    jaeger.storage.v2.DependencyReader"
    ∷ text "  Log reads       otelview.storage.v1.LogReader"
    ∷ text "  Metric reads    otelview.storage.v1.MetricReader"
    ∷ text "  Diagnostics     otelview.storage.v1.Diagnostics"
    ∷ text "  ------------------------------------------------------------"
    ∷ [])

unfoldable pub startup_banner : (SocketAddr → Str) → (ℕ → Str) → SocketAddr → Str
startup_banner display decimal address =
    logo
    ++ (heading
        ++ (text "  "
            ++ ((text "gRPC bind       " ++ display address)
                ++ (10
                    ∷ (services
                        ++ (text "  "
                            ++ ((text "All gRPC services share port " ++ decimal address.1)
                                ++ text ".\n")))))))

starts_with-append : (s rest : Str) → starts_with s (s ++ rest) ≡ true
starts_with-append [] rest = refl
starts_with-append (c ∷ s) rest = ground (arith, starts_with-append s rest)

contains-starts_with : (s needle : Str) → starts_with needle s ≡ true → contains s needle ≡ true
contains-starts_with [] needle h = h
contains-starts_with (c ∷ s) needle h = ground (arith, h)

contains-append :
    (front s needle : Str) → contains s needle ≡ true → contains (front ++ s) needle ≡ true
contains-append [] s needle h = h
contains-append (c ∷ front) s needle h = ground (arith, contains-append front s needle h)

contains-within : (front needle rest : Str) → contains (front ++ (needle ++ rest)) needle ≡ true
contains-within front needle rest =
    contains-append front (needle ++ rest) needle
      (contains-starts_with (needle ++ rest) needle (starts_with-append needle rest))

-- The banner shows the address to which the server is bound, and its port.
pub banner_shows :
    (display : SocketAddr → Str) (decimal : ℕ → Str) (address : SocketAddr)
    → (contains
          (startup_banner display decimal address)
          (text "gRPC bind       " ++ display address)
        ≡ true)
      × (contains
            (startup_banner display decimal address)
            (text "All gRPC services share port " ++ decimal address.1)
          ≡ true)
unfolding startup_banner
banner_shows display decimal address =
    let bound = text "gRPC bind       " ++ display address in
    let port = text "All gRPC services share port " ++ decimal address.1 in
    let tail = services ++ (text "  " ++ (port ++ text ".\n")) in
    let bind_line = text "  " ++ (bound ++ (10 ∷ tail)) in
    let in_tail : contains tail port ≡ true =
      contains-append services (text "  " ++ (port ++ text ".\n")) port
        (contains-within (text "  ") port (text ".\n")) in
    (
      contains-append logo (heading ++ bind_line) bound
          (contains-append heading bind_line bound (contains-within (text "  ") bound (10 ∷ tail))),
      contains-append logo (heading ++ bind_line) port (
          contains-append heading bind_line port (
            contains-append (text "  ") (bound ++ (10 ∷ tail)) port (
              contains-append bound (10 ∷ tail) port
                (contains-append (10 ∷ []) tail port in_tail)))),
    )
