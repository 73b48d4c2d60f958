-- ===== src/Blocks/MvbSniffer.antt =====
-- The client of the MVB sniffer block: src/mvbsniffer.c.
use io4edge_client_c.Base.{ℕ, List, none}
use io4edge_client_c.Transport.{Transport}
use io4edge_client_c.Proto.{Codec, StreamControlStart}
use io4edge_client_c.Client.{Client, Around}
use io4edge_client_c.Functionblock
use io4edge_client_c.Functionblock.{Answer, Plain}
use io4edge_client_c.Blocks.{Packer, pack_protomsg, EmptyRequest}

-- The generated code of the block's messages. A pattern is a string.
pub record Messages (StreamConfig : Type 0) : Type 0 where
  pub function_control_set : Packer (List ℕ)
  pub stream_control_start : Packer StreamConfig

module _ {StreamConfig S : Type 0} (pb : Messages StreamConfig) (codec : Codec)
    (tr : Transport S) where
  -- `io4edge_mvbsniffer_send_pattern`; no response is unpacked.
  abbrev pub send_pattern : List ℕ → Around → Client S → Answer S EmptyRequest
  send_pattern msg =
      Functionblock.function_control_set codec tr (pack_protomsg pb.function_control_set msg) none

  -- `io4edge_mvbsniffer_start_stream`
  abbrev pub start_stream : StreamConfig → StreamControlStart → Around → Client S → Plain S
  start_stream config =
      Functionblock.start_stream codec tr (pack_protomsg pb.stream_control_start config)
