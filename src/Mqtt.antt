-- ===== src/Mqtt.antt =====
-- What the clients use of the MQTT library of ESP-IDF: messages and events.
use winegrid_internship.Base.{Bytes}

-- A call of `esp_mqtt_client_publish`.
pub record Message : Type 0 where
  pub topic : Bytes
  pub payload : Bytes

-- The events that the handlers tell apart; a message has its topic and its payload.
-- `transport_error` stands for MQTT_EVENT_ERROR, which is only logged, and `other` for the rest.
pub data Event : Type 0 where
  connected disconnected transport_error other : Event
  message : Bytes → Bytes → Event
