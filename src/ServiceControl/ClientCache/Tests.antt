-- ===== src/ServiceControl/ClientCache/Tests.antt =====
-- Runs of the client cache: a call that fails, and a policy that is closed.
use esp_v.Base.{codes, false, some, none, [], ◌≡◌, refl}
use esp_v.ServiceControl.Info.{Status, is_ok}
use esp_v.ServiceControl.RequestBuilder.Tests.{expired}
use esp_v.ServiceControl.ClientCache.{ClientCache, CheckClient, default_setting, check_by_transport}
use esp_v.ServiceControl.ClientCache.Policy.{verdict, response_of, check_by_transport_lem}

abbrev handing_client : CheckClient
handing_client = record {
  hand_over = λ done. (done.0, elim (done.1) [ none ↦ expired | some response ↦ response ]);
  hands_status = λ status response. refl;
  hands_response = λ status response. refl;
}

abbrev closed_cache : ClientCache
closed_cache = record {
  service_name = codes "echo";
  setting = record default_setting { network_fail_open = false };
}

abbrev unavailable : Status
unavailable = record { code = 14; message = codes "no healthy upstream" }

check_by_transport_lem_example :
    is_ok (check_by_transport handing_client closed_cache (λ body. none) unavailable []).0
    ≡ verdict false (response_of (λ body. none) unavailable [])
check_by_transport_lem_example =
    check_by_transport_lem handing_client closed_cache (λ body. none) unavailable []
