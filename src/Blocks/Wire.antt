-- ===== src/Blocks/Wire.antt =====
-- A getter of the binary I/O block over TCP: `io4edge_binaryiotypea_input` of src/binaryiotypea.c.
use io4edge_client_c.Base.{ℕ}
use io4edge_client_c.Socket.{Socket}
use io4edge_client_c.Proto.{CommandType, function_control, control_get}
use io4edge_client_c.Client.{Client}
use io4edge_client_c.Functionblock.{make_anypb}
use io4edge_client_c.Blocks.{pack_protomsg}
use io4edge_client_c.Blocks.BinaryIoTypeA.{Messages, get_single}

-- The command that `input` sends for a channel.
abbrev pub input_command :
    {ConfigurationSet Got Described : Type 0}
    → Messages ConfigurationSet Got Described
    → ℕ
    → CommandType
input_command pb channel =
    function_control
      (control_get (make_anypb (pack_protomsg pb.function_control_get (get_single channel))))
