-- ===== src/Blocks/AnalogInTypeA.antt =====
-- The client of the analog input block: src/analogintypea.c.
-- A `float` stands for its bits.
use io4edge_client_c.Base.{ℕ, some}
use io4edge_client_c.Transport.{Transport}
use io4edge_client_c.Proto.{Codec, Unpack, StreamControlStart}
use io4edge_client_c.Client.{Client, Around}
use io4edge_client_c.Functionblock
use io4edge_client_c.Functionblock.{Answer, Plain}
use io4edge_client_c.Blocks.{Packer, pack_protomsg, EmptyRequest, empty_request, value_of}

-- The generated code of the block's messages. Of a `FunctionControlGetResponse` the client reads the
-- value only.
pub record Messages (ConfigurationSet Got : Type 0) : Type 0 where
  pub configuration_set : Packer ConfigurationSet
  pub configuration_get : Packer EmptyRequest
  pub configuration_get_response : Unpack Got
  pub function_control_get : Packer EmptyRequest
  pub function_control_get_response : Unpack ℕ
  pub stream_control_start : Packer EmptyRequest

module _ {ConfigurationSet Got S : Type 0} (pb : Messages ConfigurationSet Got) (codec : Codec)
    (tr : Transport S) where
  -- `io4edge_analogintypea_upload_configuration`
  abbrev pub upload_configuration : ConfigurationSet → Around → Client S → Plain S
  upload_configuration c =
      Functionblock.upload_configuration codec tr (pack_protomsg pb.configuration_set c)

  -- `io4edge_analogintypea_download_configuration`
  abbrev pub download_configuration : Around → Client S → Answer S Got
  download_configuration =
      Functionblock.download_configuration codec tr
        (pack_protomsg pb.configuration_get empty_request) pb.configuration_get_response

  -- `io4edge_analogintypea_value`
  unfoldable pub value : Around → Client S → Answer S ℕ
  value w h = value_of some (
      Functionblock.function_control_get codec tr
        (pack_protomsg pb.function_control_get empty_request) pb.function_control_get_response w h)

  -- `io4edge_analogintypea_start_stream`
  abbrev pub start_stream : StreamControlStart → Around → Client S → Plain S
  start_stream =
      Functionblock.start_stream codec tr (pack_protomsg pb.stream_control_start empty_request)
