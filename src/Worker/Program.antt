-- ===== src/Worker/Program.antt =====
-- `main` of benchmarker/worker/main.go.
use Prim.Native.String.{String}
use snake_42tokyo_tuning.Base.{ℕ, List, Run, ok, err, panic, no_fuel}
use snake_42tokyo_tuning.Base.Dict.{Dict}
use snake_42tokyo_tuning.Worker.Flow.{Backend, World}
use snake_42tokyo_tuning.Worker.Poll.{Answer, Poller, new_poller, poll_queue}
use snake_42tokyo_tuning.Worker.Clients.{Parsers, Azure, Clients, initialize_clients}

-- The poller at the end, after the answers of the queue until a signal; a panic has the status 2, and a
-- start that fails has its own.
unfoldable pub polled : Run (Unit {0}) (Unit {0}) × Poller → Run ℕ Poller
polled (ok u, p) = ok p
polled (err e, p) = err 2
polled (panic, p) = err 2
polled (no_fuel, p) = no_fuel

unfoldable pub started : World → List Answer → Backend → Run ℕ Clients → Run ℕ Poller
unfolding polled
started world answers s (ok clients) = polled (poll_queue world answers (new_poller s))
started world answers s (err status) = err status
started world answers s panic = panic
started world answers s no_fuel = no_fuel

-- `main`
unfoldable pub worker_main :
    Parsers → Azure → Dict String → World → List Answer → Backend → Run ℕ Poller
unfolding started
worker_main parsers azure vars world answers s =
    started world answers s (initialize_clients parsers azure vars)
