-- ===== src/Tests/Choice.antt =====
-- Runs of the server lists, the configuration, the rotation and the status.
use natcat.Base.{
  All, List, [], arith, length, none, refl, some, true, ◌%◌, ◌++◌, ◌+◌, ◌↔◌, ◌∷◌, ◌≡◌,
}
use natcat.Config.{normalize_config, tcp, validate_config}
use natcat.Config.Normal.{normalize_config_idem}
use natcat.Config.Valid.{IsValid, validate_config-IsValid}
use natcat.Dict.{get}
use natcat.Int.{pos}
use natcat.Notify.{expand_notify_script}
use natcat.Notify.Template.{
  IsPiece, Piece, braces, expand_notify_script-render, fill, literal, render,
}
use natcat.Result.{ok}
use natcat.Rotation.{cursor, ordered_server_endpoints}
use natcat.Rotation.Order.{ordered_server_endpoints_after}
use natcat.Servers.{normalize_server_endpoints}
use natcat.Servers.Normal.{DistinctFrom, IsUsable, normalize_server_endpoints-DistinctFrom}
use natcat.Status.{belongs_to_run, merge, state_blocks_keep_alive}
use natcat.Status.Alive.{NamesSame, merge-connected_at}
use natcat.Text.{Text, codes, text_eq}
use natcat.Types.{
  InstanceConfig, RuntimeStatus, ServerEndpoint, connected, empty_status, no_config, no_keep,
  running,
}

abbrev one_server : ServerEndpoint
one_server = record { host = codes "a"; port = pos 80 }

abbrev two_server : ServerEndpoint
two_server = record { host = codes "b"; port = pos 81 }

abbrev both : List ServerEndpoint
both = one_server ∷ two_server ∷ []

normalize_server_endpoints-DistinctFrom_example :
    DistinctFrom [] (normalize_server_endpoints (one_server ∷ both) (pos 80))
    × All IsUsable (normalize_server_endpoints (one_server ∷ both) (pos 80))
normalize_server_endpoints-DistinctFrom_example =
    normalize_server_endpoints-DistinctFrom (one_server ∷ both) (pos 80) (omega arith)

ordered_server_endpoints_after_example :
    ((ordered_server_endpoints [] (codes "stun") both (some one_server)).1
      ≡ (two_server ∷ []) ++ ([] ++ one_server ∷ []))
    × (cursor (ordered_server_endpoints [] (codes "stun") both (some one_server)).0 (codes "stun")
        ≡ (0 + 1) % length both + 1)
ordered_server_endpoints_after_example =
    ordered_server_endpoints_after [] (codes "stun") [] one_server (two_server ∷ []) refl
      (omega arith)

abbrev plain_config : InstanceConfig
plain_config = record no_config {
  id = codes "1";
  protocol = codes " TCP ";
  http_host = codes "qq.com";
  enabled = true;
}

normalize_config_idem_example :
    normalize_config (normalize_config plain_config) ≡ normalize_config plain_config
normalize_config_idem_example = normalize_config_idem plain_config

validate_config-IsValid_example :
    (validate_config (λ s. none) plain_config ≡ ok tt) ↔ IsValid (λ s. none) plain_config
validate_config-IsValid_example = validate_config-IsValid (λ s. none) plain_config

abbrev running_status : RuntimeStatus
running_status = record empty_status {
  state = running;
  started_at = some 10;
  keep_alive = record no_keep {
    state = connected;
    protocol = tcp;
    address = codes "qq.com";
    port = pos 80;
    connected_at = 20;
  };
}

abbrev heartbeat : RuntimeStatus
heartbeat = record empty_status {
  keep_alive = record no_keep {
    state = connected;
    protocol = tcp;
    address = codes "qq.com";
    port = pos 80;
    connected_at = 55;
  };
}

merge-connected_at_example :
    (NamesSame heartbeat.keep_alive running_status.keep_alive
      → (merge 60 running_status heartbeat).keep_alive
        ≡ record (heartbeat.keep_alive) { connected_at = 20 })
    × (¬ NamesSame heartbeat.keep_alive running_status.keep_alive
        → (merge 60 running_status heartbeat).keep_alive ≡ heartbeat.keep_alive)
unfolding natcat.Status.state_blocks_keep_alive belongs_to_run
merge-connected_at_example =
    merge-connected_at 60 running_status heartbeat refl refl refl refl refl refl refl

abbrev ip_vars : List (Text × Text)
ip_vars = (codes "IP", codes "$1") ∷ []

abbrev greeting : List Piece
greeting = literal b'a' ∷ braces (codes "IP") (codes "$1") ∷ literal b'b' ∷ []

greeting-IsPiece : All (IsPiece ip_vars) greeting
unfolding natcat.Dict.get natcat.Text.text_eq
greeting-IsPiece = (refl, (((refl, (refl, tt)), refl), (refl, tt)))

expand_notify_script-render_example : expand_notify_script (render greeting) ip_vars ≡ fill greeting
expand_notify_script-render_example = expand_notify_script-render ip_vars greeting greeting-IsPiece
