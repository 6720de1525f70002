-- ===== src/Rtmp/Messages.antt =====
-- crates/rtmp/src/messages/define.rs: the type of a message.
use video.Base.{ℕ, ◌<◌, ◌≡◌, refl, arith, List, [], ◌∷◌, Option, none, some, ◌==◌, if◌then◌else◌}

-- `audio_data` and `video_data` are the variants `Audio` and `Video`.
pub data MessageTypeId : Type 0 where
  set_chunk_size abort acknowledgement user_control_event : MessageTypeId
  window_acknowledgement_size set_peer_bandwidth audio_data video_data : MessageTypeId
  data_amf3 shared_obj_amf3 command_amf3 data_amf0 shared_obj_amf0 : MessageTypeId
  command_amf0 aggregate : MessageTypeId

-- `msg_type_id as u8`
unfoldable pub to_u8 : MessageTypeId → ℕ
to_u8 set_chunk_size = 1
to_u8 abort = 2
to_u8 acknowledgement = 3
to_u8 user_control_event = 4
to_u8 window_acknowledgement_size = 5
to_u8 set_peer_bandwidth = 6
to_u8 audio_data = 8
to_u8 video_data = 9
to_u8 data_amf3 = 15
to_u8 shared_obj_amf3 = 16
to_u8 command_amf3 = 17
to_u8 data_amf0 = 18
to_u8 shared_obj_amf0 = 19
to_u8 command_amf0 = 20
to_u8 aggregate = 22

abbrev message_types : List MessageTypeId
message_types =
    set_chunk_size ∷ abort ∷ acknowledgement ∷ user_control_event ∷ window_acknowledgement_size
    ∷ set_peer_bandwidth ∷ audio_data ∷ video_data ∷ data_amf3 ∷ shared_obj_amf3 ∷ command_amf3
    ∷ data_amf0 ∷ shared_obj_amf0 ∷ command_amf0 ∷ aggregate ∷ []

unfoldable pub find_type : List MessageTypeId → ℕ → Option MessageTypeId
find_type [] n = none
find_type (t ∷ ts) n = if n == to_u8 t then some t else find_type ts n

-- `MessageTypeID::from_u8`, which `#[derive(FromPrimitive)]` makes.
unfoldable pub from_u8 : ℕ → Option MessageTypeId
unfolding find_type to_u8
from_u8 n = find_type message_types n

pub from_u8-to_u8 : (t : MessageTypeId) → from_u8 (to_u8 t) ≡ some t
unfolding from_u8
from_u8-to_u8 set_chunk_size = refl
from_u8-to_u8 _ = refl

pub to_u8-lt : (t : MessageTypeId) → to_u8 t < 256
unfolding to_u8
to_u8-lt set_chunk_size = omega arith
to_u8-lt _ = omega arith
