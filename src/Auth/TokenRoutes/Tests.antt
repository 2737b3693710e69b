-- ===== src/Auth/TokenRoutes/Tests.antt =====
-- The handlers' theorem at a concrete input.
use app_home_services.Base.{Option, none, [], ◌⊎◌, from_secs}
use app_home_services.Base.Text.{Text, text}
use app_home_services.Net.Addr.{IpAddr, v4}
use app_home_services.Net.ClientIp.{HeaderMap, resolve_client_ip}
use app_home_services.RateLimiter.Memory.{MemoryRateLimiter, try_check_and_record}
use app_home_services.Auth.UseCases.{refresh_token}
use app_home_services.Auth.Sample.{crypto, jwt, settings, draws, db}
use app_home_services.Auth.TokenRoutes.{RouteState, refresh_token_handler}
use app_home_services.Auth.TokenRoutes.Effects.{
  IsRefreshed, IsRefused, refresh_token_handler_outcome,
}

abbrev parse : Text → Option IpAddr
parse _ = none

abbrev headers : HeaderMap
headers = record { x_forwarded_for = none; x_real_ip = none }

abbrev limiter : MemoryRateLimiter
limiter = record { max_attempts = 2; window_duration = from_secs 300; entries = [] }

abbrev state : RouteState
state = record { limiter = limiter; db = db; published = [] }

refresh_token_handler_outcome_example :
    IsRefreshed
      (refresh_token crypto jwt settings draws (text "refresh"))
      (resolve_client_ip parse (v4 7) headers [])
      (try_check_and_record limiter 1 2 (resolve_client_ip parse (v4 7) headers [])).1
      state
      (refresh_token_handler crypto jwt settings draws parse [] 1 2
        (v4 7)
        headers
        (text "refresh")
        state)
    ⊎ IsRefused state (
        refresh_token_handler crypto jwt settings draws parse [] 1 2
          (v4 7)
          headers
          (text "refresh")
          state)
refresh_token_handler_outcome_example =
    refresh_token_handler_outcome crypto jwt settings draws parse [] 1 2 (v4 7) headers
      (text "refresh") state
