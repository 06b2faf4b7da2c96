-- ===== src/Health/Reports.antt =====
-- When internal/health/health.go reports that all is well, and what it says where it is not.
use yuzu_agent_webrtc_toy.Prelude.{◌==◌, ◌≡◌, refl, ◌⊎◌, true, false, not, List, [], ◌∷◌, arith}
use yuzu_agent_webrtc_toy.Prelude.Int.{ℤ}
use yuzu_agent_webrtc_toy.Text.{Str, codes, is_empty, str_eq}
use yuzu_agent_webrtc_toy.Maps.{lookup}
use yuzu_agent_webrtc_toy.WorkerWs.{is_some}
use yuzu_agent_webrtc_toy.Clock.{Time}
use yuzu_agent_webrtc_toy.Api.{Config}
use yuzu_agent_webrtc_toy.Health.{
  CheckResult, Answer, build_fails, call_fails, response, Services, unexpected_status, on_daily,
  daily_request, check_daily, on_eleven_labs, eleven_labs_request, check_eleven_labs, on_voice,
  voice_request, check_voice_id, all_ok, check_all, handle_health, encode_check,
}

-- An answer of status 200.
abbrev pub Is200 : Answer → Type 0
Is200 (build_fails err) = ⊥
Is200 (call_fails err) = ⊥
Is200 (response status body) = status ≡ 200

-- Both services are configured, and both answer the request that is made of them with 200.
pub record IsUp (cfg : Config) (services : Services) : Type 0 where
  pub daily_key : is_empty cfg.daily_api_key ≡ false
  pub daily : Is200 (services (daily_request cfg)).0
  pub eleven_key : is_empty cfg.eleven_api_key ≡ false
  pub eleven_voice : is_empty cfg.eleven_voice_id ≡ false
  pub eleven : Is200 (services (eleven_labs_request cfg)).0

-- A check is explained: it has an error just where it is not well.
abbrev pub IsExplained : CheckResult → Type 0
IsExplained c = is_empty c.error ≡ c.ok

on_daily-Is200 :
    (latency : ℤ) (a : Answer)
    → IsExplained (on_daily latency a)
      × ((on_daily latency a).ok ≡ true → Is200 a)
      × (Is200 a → (on_daily latency a).ok ≡ true)
unfolding on_daily unexpected_status
on_daily-Is200 latency (build_fails err) = ground arith
on_daily-Is200 latency (call_fails err) = ground arith
on_daily-Is200 latency (response status body) = ground arith

module _ (quote : Str → Str) (cfg : Config) where
  on_eleven_labs-Is200 :
      (latency : ℤ) (a : Answer)
      → IsExplained (on_eleven_labs quote cfg latency a)
        × ((on_eleven_labs quote cfg latency a).ok ≡ true → Is200 a)
        × (Is200 a → (on_eleven_labs quote cfg latency a).ok ≡ true)
  unfolding on_eleven_labs unexpected_status
  on_eleven_labs-Is200 latency (build_fails err) = ground arith
  on_eleven_labs-Is200 latency (call_fails err) = ground arith
  on_eleven_labs-Is200 latency (response status body) = ground arith

  on_voice-Is200 :
      (latency : ℤ) (a : Answer)
      → IsExplained (on_voice quote cfg latency a)
        × ((on_voice quote cfg latency a).ok ≡ true → Is200 a)
        × (Is200 a → (on_voice quote cfg latency a).ok ≡ true)
  unfolding on_voice unexpected_status
  on_voice-Is200 latency (build_fails err) = ground arith
  on_voice-Is200 latency (call_fails err) = ground arith
  on_voice-Is200 latency (response status body) = ground arith

-- Each check of a service is explained, and is well just where the service was asked and said 200.
module _ (quote : Str → Str) (cfg : Config) (services : Services) (early : ℤ) where
  check_daily-Is200 :
      IsExplained (check_daily cfg services early)
      × ((check_daily cfg services early).ok ≡ true
          → (is_empty cfg.daily_api_key ≡ false) × Is200 (services (daily_request cfg)).0)
      × (is_empty cfg.daily_api_key ≡ false
          → Is200 (services (daily_request cfg)).0
          → (check_daily cfg services early).ok ≡ true)
  unfolding check_daily
  check_daily-Is200 =
      let (answer, latency) = services (daily_request cfg) in
      ground (arith, on_daily-Is200 latency answer)

  check_eleven_labs-Is200 :
      IsExplained (check_eleven_labs quote cfg services early)
      × ((check_eleven_labs quote cfg services early).ok ≡ true
          → (is_empty cfg.eleven_api_key ≡ false)
            × (is_empty cfg.eleven_voice_id ≡ false)
            × Is200 (services (eleven_labs_request cfg)).0)
      × (is_empty cfg.eleven_api_key ≡ false
          → is_empty cfg.eleven_voice_id ≡ false
          → Is200 (services (eleven_labs_request cfg)).0
          → (check_eleven_labs quote cfg services early).ok ≡ true)
  unfolding check_eleven_labs
  check_eleven_labs-Is200 =
      let (answer, latency) = services (eleven_labs_request cfg) in
      ground (arith, on_eleven_labs-Is200 quote cfg latency answer)

  check_voice_id-Is200 :
      IsExplained (check_voice_id quote cfg services early)
      × ((check_voice_id quote cfg services early).ok ≡ true
          → (is_empty cfg.eleven_api_key ≡ false)
            × (is_empty cfg.eleven_voice_id ≡ false)
            × Is200 (services (voice_request cfg)).0)
      × (is_empty cfg.eleven_api_key ≡ false
          → is_empty cfg.eleven_voice_id ≡ false
          → Is200 (services (voice_request cfg)).0
          → (check_voice_id quote cfg services early).ok ≡ true)
  unfolding check_voice_id
  check_voice_id-Is200 =
      let (answer, latency) = services (voice_request cfg) in
      ground (arith, on_voice-Is200 quote cfg latency answer)

-- The JSON of each check has an "error" just where its "ok" is false.
abbrev pub AreReported : List CheckResult → Type 0
AreReported [] = Unit
AreReported (c ∷ checks) =
    (is_some (lookup (codes "error") (encode_check c)) ≡ not c.ok) × AreReported checks

encode_check-IsExplained :
    (c : CheckResult) → IsExplained c → is_some (lookup (codes "error") (encode_check c)) ≡ not c.ok
unfolding encode_check lookup str_eq
encode_check-IsExplained c h = ground (arith, h)

-- "/health" answers 200 just where both services are configured and both answer the request that is made
-- of them with 200; otherwise it answers 503, and its body is ok just with 200. Each check in its body
-- has an error just where it is not ok.
pub health_report :
    (quote : Str → Str) (cfg : Config) (services : Services) (early : ℤ) (now : Time)
    → let h = check_all quote cfg services early now in
      let (status, body) = handle_health h in
      (body.ok ≡ (status == 200))
      × (status ≡ 200 → IsUp cfg services)
      × (IsUp cfg services → status ≡ 200)
      × ((status ≡ 200) ⊎ (status ≡ 503))
      × AreReported h.checks
unfolding check_all all_ok handle_health
health_report quote cfg services early now =
    let daily = check_daily-Is200 quote cfg services early in
    let eleven = check_eleven_labs-Is200 quote cfg services early in
    let d = check_daily cfg services early in
    let e = check_eleven_labs quote cfg services early in
    (
      ground arith,
      λ h.
          let oks : (d.ok ≡ true) × (e.ok ≡ true) = ground (arith, h) in
          let (key, answer) = daily.1 oks.0 in
          let (key', voice, answer') = eleven.1 oks.1 in
          record {
            daily_key = key;
            daily = answer;
            eleven_key = key';
            eleven_voice = voice;
            eleven = answer';
          },
      λ up.
          rw (daily.2 up.daily_key up.daily, eleven.2 up.eleven_key up.eleven_voice up.eleven) refl,
      ground arith,
      (encode_check-IsExplained d daily.0, (encode_check-IsExplained e eleven.0, tt)),
    )
