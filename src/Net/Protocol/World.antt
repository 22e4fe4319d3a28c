-- ===== src/Net/Protocol/World.antt =====
-- common/net/include/net/protocol.h: the messages between the clients and the world server.
use untitled.Base.{ℕ, Option, none, some, List, [], ◌∷◌, ◌==◌, if◌then◌else◌, ◌≡◌, refl}

pub data WorldMessage : Type 0 where
  join_request join_response logout_request logout_response disconnect : WorldMessage
  client_hello snapshot client_input : WorldMessage
  admin_set_time_request admin_set_time_response admin_status_request : WorldMessage
  admin_status_response admin_set_latency_request admin_set_latency_response : WorldMessage

abbrev pub world_code : WorldMessage → ℕ
world_code join_request = 200
world_code join_response = 201
world_code logout_request = 202
world_code logout_response = 203
world_code disconnect = 204
world_code client_hello = 210
world_code snapshot = 211
world_code client_input = 212
world_code admin_set_time_request = 220
world_code admin_set_time_response = 221
world_code admin_status_request = 222
world_code admin_status_response = 223
world_code admin_set_latency_request = 224
world_code admin_set_latency_response = 225

abbrev world_messages : List WorldMessage
world_messages =
    join_request ∷ join_response ∷ logout_request ∷ logout_response ∷ disconnect ∷ client_hello
    ∷ snapshot ∷ client_input ∷ admin_set_time_request ∷ admin_set_time_response
    ∷ admin_status_request ∷ admin_status_response ∷ admin_set_latency_request
    ∷ admin_set_latency_response ∷ []

world_message_in : List WorldMessage → ℕ → Option WorldMessage
world_message_in [] code = none
world_message_in (m ∷ ms) code =
    let rest = world_message_in ms code in if code == world_code m then some m else rest

unfoldable pub world_message? : ℕ → Option WorldMessage
unfolding world_message_in
world_message? = world_message_in world_messages

pub world_message?-world_code : (m : WorldMessage) → world_message? (world_code m) ≡ some m
unfolding world_message?
world_message?-world_code join_request = refl
world_message?-world_code join_response = refl
world_message?-world_code logout_request = refl
world_message?-world_code logout_response = refl
world_message?-world_code disconnect = refl
world_message?-world_code client_hello = refl
world_message?-world_code snapshot = refl
world_message?-world_code client_input = refl
world_message?-world_code admin_set_time_request = refl
world_message?-world_code admin_set_time_response = refl
world_message?-world_code admin_status_request = refl
world_message?-world_code admin_status_response = refl
world_message?-world_code admin_set_latency_request = refl
world_message?-world_code admin_set_latency_response = refl

-- A byte of the wire may be no TimeCommand; every other byte is handled as `set` is.
pub data TimeCommand : Type 0 where
  set speed reset : TimeCommand

unfoldable pub time_command : ℕ → TimeCommand
time_command code = if code == 1 then speed else (if code == 2 then reset else set)

pub data JoinResult : Type 0 where
  success invalid_session version_mismatch server_full server_error : JoinResult

abbrev pub join_code : JoinResult → ℕ
join_code success = 0
join_code invalid_session = 1
join_code version_mismatch = 2
join_code server_full = 3
join_code server_error = 4

pub data EntityType : Type 0 where
  cube player : EntityType

abbrev pub entity_code : EntityType → ℕ
entity_code cube = 0
entity_code player = 1

abbrev pub input_jump : ℕ
input_jump = 1

abbrev pub input_sprint : ℕ
input_sprint = 2
