-- ===== src/Blocks/CanL2.antt =====
-- The client of the CAN block: src/canl2.c.
use io4edge_client_c.Base.{List, none, some}
use io4edge_client_c.Transport.{Transport}
use io4edge_client_c.Proto.{Codec, Unpack, StreamControlStart}
use io4edge_client_c.Client.{Client, Around}
use io4edge_client_c.Functionblock
use io4edge_client_c.Functionblock.{Answer, Plain}
use io4edge_client_c.Blocks.{Packer, pack_protomsg, EmptyRequest, empty_request, value_of}

-- The generated code of the block's messages. Frames, controller states and the settings of a stream are
-- only passed on; of a `FunctionControlGetResponse` the client reads the state only.
pub record Messages (ConfigurationSet Got CanFrame ControllerState StreamConfig : Type 0)
    : Type 0 where
  pub configuration_set : Packer ConfigurationSet
  pub configuration_get : Packer EmptyRequest
  pub configuration_get_response : Unpack Got
  pub function_control_set : Packer (List CanFrame)
  pub function_control_get : Packer EmptyRequest
  pub function_control_get_response : Unpack ControllerState
  pub stream_control_start : Packer StreamConfig

module _ {ConfigurationSet Got CanFrame ControllerState StreamConfig S : Type 0}
    (pb : Messages ConfigurationSet Got CanFrame ControllerState StreamConfig) (codec : Codec)
    (tr : Transport S) where
  -- `io4edge_canl2_upload_configuration`
  abbrev pub upload_configuration : ConfigurationSet → Around → Client S → Plain S
  upload_configuration c =
      Functionblock.upload_configuration codec tr (pack_protomsg pb.configuration_set c)

  -- `io4edge_canl2_download_configuration`
  abbrev pub download_configuration : Around → Client S → Answer S Got
  download_configuration =
      Functionblock.download_configuration codec tr
        (pack_protomsg pb.configuration_get empty_request) pb.configuration_get_response

  -- `io4edge_canl2_send_frames`
  abbrev pub send_frames : List CanFrame → Around → Client S → Answer S ControllerState
  send_frames frames =
      Functionblock.function_control_set codec tr (pack_protomsg pb.function_control_set frames)
        none

  -- `io4edge_canl2_ctrl_state`
  unfoldable pub ctrl_state : Around → Client S → Answer S ControllerState
  ctrl_state w h = value_of some (
      Functionblock.function_control_get codec tr
        (pack_protomsg pb.function_control_get empty_request) pb.function_control_get_response w h)

  -- `io4edge_canl2_start_stream`
  abbrev pub start_stream : StreamConfig → StreamControlStart → Around → Client S → Plain S
  start_stream config =
      Functionblock.start_stream codec tr (pack_protomsg pb.stream_control_start config)
