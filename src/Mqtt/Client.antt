-- ===== src/Mqtt/Client.antt =====
-- egress/mqtt_client.h and egress/mqtt_client.c: a session for one point.
use edgeflow_energy_gateway.Common.{Bool}
use edgeflow_energy_gateway.Floats.{Floats}
use edgeflow_energy_gateway.Model.Types.{Telemetry, GatewayConfig}
use edgeflow_energy_gateway.Mqtt.Wire.{Transport}
use edgeflow_energy_gateway.Mqtt.Session.{
  mqtt_session_init, mqtt_session_publish_telemetry, mqtt_session_shutdown,
}

module _ ⦃f : Floats⦄ {W : Type 0} (net : Transport W) where
  open f use {Double}

  unfoldable pub mqtt_publish_point : GatewayConfig Double → Telemetry Double → W → Bool × W
  mqtt_publish_point cfg point w =
      let (sent, session, w₁) =
        mqtt_session_publish_telemetry net point (mqtt_session_init cfg) w in
      let (closed, w₂) = mqtt_session_shutdown net session w₁ in (sent, w₂)
