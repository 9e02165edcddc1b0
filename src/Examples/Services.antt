-- ===== src/Examples/Services.antt =====
-- The theorem on service-remediate at a host that stops a service one look late.
use pantheon_tools_catalog.Prelude.{ℕ, zero, suc, true, [], ok}
use pantheon_tools_catalog.Text.{codes}
use pantheon_tools_catalog.Remediate.Exec.{Session}
use pantheon_tools_catalog.Remediate.Service.{
  Services, Call, Request, running, stopped, to_stop, remediate,
}
use pantheon_tools_catalog.Remediate.Service.Verified.{Sound, remediate-Sound}

-- The state is the number of waits that the service still takes to stop.
abbrev late_host : Services ℕ
late_host = record {
  status = λ _ s. (elim s [ zero ↦ ok stopped | suc _ ↦ ok running ], s);
  change = λ _ _ s. (ok tt, 2);
  sleep = λ s. (tt, elim s [ zero ↦ zero | suc n ↦ n ]);
}

abbrev stop_cron : Request
stop_cron = record { name = codes "cron"; desired = to_stop; apply = true }

abbrev before_stop : Session ℕ Call
before_stop = record { host = 9; calls = [] }

remediate-Sound_example : Sound late_host stop_cron [] (remediate late_host stop_cron before_stop)
remediate-Sound_example = remediate-Sound late_host stop_cron before_stop
