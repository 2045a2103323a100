-- ===== src/Tests/Process.antt =====
-- The mux, a run of `Start`, and a process launched from an environment.
use llm_gateway_platform.Prelude.{ℕ, ◌≤◌, ◌≡◌, refl, ◌↔◌, ◌⊎◌, true, none, some}
use llm_gateway_platform.Prelude.Int.{ℤ}
use llm_gateway_platform.Float.Nano.{nano, nano-IsIeee}
use llm_gateway_platform.Http.{ok}
use llm_gateway_platform.Server.Mux.{Incoming, new, serve_http}
use llm_gateway_platform.Server.Dispatch.{expected, serve_http-expected}
use llm_gateway_platform.Server.Lifecycle.{
  State, sending, returned, draining, cancel, drain, shut_down, serve_closes, Run, begin, later,
  started, to_send,
}
use llm_gateway_platform.Server.Shutdown.{CanStep, Finished, every-Run_ends}
use llm_gateway_platform.Main.{Launched, level_info, new_logger, launch, stopped, exit_code}
use llm_gateway_platform.Main.Launch.{Serving, launch-Serving, CleanExit, exit_zero}
use llm_gateway_platform.Main.Startup.{IsComplete, launch_iff}
use llm_gateway_platform.Tests.Retry.{quiet}
use llm_gateway_platform.Tests.Gateway.{
  system, cfg, loaded, backends, backends-ArePlain, built, router, table, ask,
}

abbrev posted : Incoming ℤ
posted = record { method = "POST"; path = "/v1/chat/completions"; caller = "team"; body = some ask }

serve_http-expected_example :
    serve_http nano quiet (new cfg router (some table)) posted 200
    ≡ expected nano quiet cfg router (some table) posted 200
serve_http-expected_example = serve_http-expected nano quiet cfg router (some table) posted 200

-- A signal; `Start` drains, the listener closes, and `Shutdown` returns.
abbrev signalled : State
signalled = record started { ctx_done = true }

abbrev drained : State
drained = record signalled { caller = draining }

abbrev closed : State
closed = record drained { listener = sending none }

abbrev over : State
over = record closed { caller = returned none }

down : Run 4 over
unfolding to_send
down =
    later 3 closed over
      (later 2 drained closed
        (later 1 signalled drained (later 0 started signalled begin (cancel refl))
          (drain refl refl))
        (serve_closes refl tt))
      (shut_down none refl)

every-Run_ends_example : (4 ≤ 5) × (CanStep over ⊎ Finished over)
every-Run_ends_example = every-Run_ends 4 over down

abbrev process : Launched ℤ ℕ
process = record { log = level_info; server = new cfg router (some table) }

launched : launch nano backends system ≡ ok process
unfolding launch new_logger
launched = rw (loaded, built) refl

launch_iff_example :
    ((l : Launched ℤ ℕ) × (launch nano backends system ≡ ok l)) ↔ IsComplete nano backends system
launch_iff_example = launch_iff nano backends system nano-IsIeee

launch-Serving_example : Serving nano backends system process
launch-Serving_example = launch-Serving nano backends system process backends-ArePlain launched

exit_zero_example : CleanExit nano backends system
unfolding exit_code
exit_zero_example =
    exit_zero nano backends system none (stopped process 4 over none launched down refl) refl
