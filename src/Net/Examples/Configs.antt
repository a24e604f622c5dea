-- ===== src/Net/Examples/Configs.antt =====
-- The theorems on configurations, on those of the examples.
use gcluster.Common.{◌≡◌, refl, some, ok, arith}
use gcluster.Common.Int.{leb_ℤ, ltb_ℤ}
use gcluster.Net.Config.{init_session_config, init_handshake_config, init_service_config}
use gcluster.Net.Config.Laws.{
  IsSessionConfig, IsServiceConfig, init_session_config-IsSessionConfig, init_session_config_again,
  init_service_config-IsServiceConfig,
}
use gcluster.Net.Examples.{limits, node_config}

init_session_config-IsSessionConfig_example : IsSessionConfig limits
unfolding init_session_config leb_ℤ ltb_ℤ
init_session_config-IsSessionConfig_example =
    init_session_config-IsSessionConfig limits {d = limits} refl

init_session_config_again_example : init_session_config (some limits) ≡ ok limits
init_session_config_again_example = init_session_config_again limits (ground arith)

init_service_config-IsServiceConfig_example : IsServiceConfig node_config
unfolding init_service_config init_session_config init_handshake_config leb_ℤ ltb_ℤ
init_service_config-IsServiceConfig_example =
    init_service_config-IsServiceConfig node_config {d = node_config} refl
