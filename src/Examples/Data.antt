-- ===== src/Examples/Data.antt =====
-- The strings, buffers and packets of the examples.
use fembed_lwip.Common.{ℕ, pos, List, [], ◌∷◌, some, replicate, refl}
use fembed_lwip.Wire.Strings.{MqttString, of_chars, mqtt_string_initializer}
use fembed_lwip.Wire.Text.{Holds, as_cstring, as_lenstring, as_null}
use fembed_lwip.Packet.Ack.{AckOut}
use fembed_lwip.Packet.Connack.{ConnackOut}
use fembed_lwip.Packet.Connect.{ConnectData, connect_data_initializer}
use fembed_lwip.Packet.Connect.Laws.{Connection, HoldsConnection}
use fembed_lwip.Packet.Publish.{PublishArgs, PublishOut}
use fembed_lwip.Packet.Suback.{SubackOut}

-- "a/b"
abbrev pub topic : List ℕ
topic = 97 ∷ 47 ∷ 98 ∷ []

abbrev pub c_string : List ℕ → MqttString
c_string s = record mqtt_string_initializer { cstring = some s }

abbrev pub zeros : ℕ → List ℕ
zeros n = replicate n 0

abbrev pub blank_ack : AckOut
blank_ack = record { packettype = 9; dup = 9; packetid = 9 }

abbrev pub blank_connack : ConnackOut
blank_connack = record { session_present = 9; connack_rc = 9 }

abbrev pub blank_suback : SubackOut
blank_suback = record { packetid = 9; count = 9; granted = 9 ∷ 9 ∷ [] }

abbrev pub blank_publish : PublishOut
blank_publish = record {
  dup = 9;
  qos = 9;
  retained = 9;
  packetid = 9;
  topic_name = mqtt_string_initializer;
  payload = [];
  payloadlen = pos 9;
}

-- "hi" on "a/b" at quality of service 1
abbrev pub greeting : PublishArgs
greeting = record {
  dup = 0;
  qos = 1;
  retained = 1;
  packetid = 300;
  topic_name = c_string topic;
  payload = 104 ∷ 105 ∷ [];
  payloadlen = 2;
}

pub greeting_topic : Holds greeting.topic_name topic
greeting_topic = as_cstring refl refl

-- "dev" with a user name and no password
abbrev pub login : ConnectData
login = record connect_data_initializer {
  client_id = of_chars 3 (some (100 ∷ 101 ∷ 118 ∷ 0 ∷ []));
  username = c_string (117 ∷ []);
}

abbrev pub login_texts : Connection
login_texts = record {
  client_id = 100 ∷ 101 ∷ 118 ∷ [];
  will_topic = [];
  will_message = [];
  username = 117 ∷ [];
  password = [];
}

pub login_holds : HoldsConnection login login_texts
login_holds = record {
  client_id = as_lenstring (0 ∷ []) refl refl refl;
  will_topic = as_null refl refl refl;
  will_message = as_null refl refl refl;
  username = as_cstring refl refl;
  password = as_null refl refl refl;
}
