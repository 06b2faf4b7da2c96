-- ===== src/Examples/Health.antt =====
-- The report of internal/health where one service is down.
use yuzu_agent_webrtc_toy.Prelude.{◌==◌, ◌≡◌, refl, ◌⊎◌, [], if◌then◌else◌}
use yuzu_agent_webrtc_toy.Prelude.Int.{pos}
use yuzu_agent_webrtc_toy.Text.{codes, str_eq}
use yuzu_agent_webrtc_toy.Health.{
  call_fails, response, Services, all_ok, check_all, check_daily, check_eleven_labs, on_daily,
  on_eleven_labs, daily_request, eleven_labs_request, handle_health,
}
use yuzu_agent_webrtc_toy.Health.Reports.{IsUp, AreReported, health_report}
use yuzu_agent_webrtc_toy.Api.{Config}
use yuzu_agent_webrtc_toy.Examples.Api.{cfg, now}

abbrev keyed : Config
keyed = record cfg { eleven_api_key = codes "e"; eleven_voice_id = codes "v" }

-- Daily answers; the connection to the other service is refused.
abbrev services : Services
services req =
    if str_eq req.method (codes "GET")
    then (response 200 [], pos 12000000)
    else (call_fails (codes "refused"), pos 3000000)

health_report_example :
    let h = check_all (λ s. s) keyed services (pos 0) now in
    let (status, body) = handle_health h in
    (body.ok ≡ (status == 200))
    × (status ≡ 200 → IsUp keyed services)
    × (IsUp keyed services → status ≡ 200)
    × ((status ≡ 200) ⊎ (status ≡ 503))
    × AreReported h.checks
health_report_example = health_report (λ s. s) keyed services (pos 0) now

some_down : (handle_health (check_all (λ s. s) keyed services (pos 0) now)).0 ≡ 503
unfolding handle_health check_all check_daily check_eleven_labs on_daily on_eleven_labs
    daily_request eleven_labs_request all_ok str_eq
some_down = refl
