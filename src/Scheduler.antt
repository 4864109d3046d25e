-- ===== src/Scheduler.antt =====
-- The serial loop of the service (internal/scheduler/scheduler.go), over the job store and the worker,
-- which are its queue and its runner. The loop is cut after some rounds: it goes on as long as its
-- context is not done and nothing fails.
pub mod Idle
pub mod Rounds
use ipa_now.Common.{ℕ, zero, suc, Bool, true, false, Option, none, some, if◌then◌else◌}
use ipa_now.Jobs.Model.{Job}
use ipa_now.Jobs.Queue.{claim}
use ipa_now.Worker.World.{Env, Work, ◌>>=◌, ◌>>◌, pure, call, ask}
use ipa_now.Worker.Finish.{expire}
use ipa_now.Worker.Run.{run_job}

-- The service's context at the n-th step
abbrev pub Context : Type 0
Context = ℕ → Bool

-- Whether the loop goes on: after a job at once, else at the next tick.
unfoldable pub dispatch : Env → Context → Option Job → Work Bool
dispatch env ended (some j) = run_job env j >> pure true
dispatch env ended none = ask ended >>= λ stop. pure (if stop then false else true)

unfoldable pub round : Env → Context → Work Bool
round env ended = ask ended >>= λ stop.
    if stop then pure false else (expire env >> call env claim >>= dispatch env ended)

-- At most `n` rounds; `true` if the loop would go on.
unfoldable pub serve : Env → Context → ℕ → Work Bool
serve env ended zero = pure true
serve env ended (suc n) =
    let rest = serve env ended n in round env ended >>= λ more. if more then rest else pure false
