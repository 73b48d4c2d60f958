-- ===== src/Err.antt =====
-- Return codes of the client library: `io4e_err_t` and the IO4E_ constants of
-- src/include/io4edge_client.h.
use io4edge_client_c.Base.{Bool}
use io4edge_client_c.Base.Int.{ℤ, pos, negsuc, eq_ℤ}

abbrev pub Err : Type 0
Err = ℤ

abbrev pub ok : Err
ok = pos 0

abbrev pub fail : Err
fail = negsuc 0

abbrev pub err_timeout : Err
err_timeout = pos 1

abbrev pub err_no_mem : Err
err_no_mem = pos 2

abbrev pub err_protobuf : Err
err_protobuf = pos 3

abbrev pub err_connection_closed : Err
err_connection_closed = pos 4

abbrev pub err_fb_unspecific_error : Err
err_fb_unspecific_error = pos 10

abbrev pub err_fb_unknown_command : Err
err_fb_unknown_command = pos 11

abbrev pub err_fb_not_implemented : Err
err_fb_not_implemented = pos 12

abbrev pub err_fb_wrong_client : Err
err_fb_wrong_client = pos 13

abbrev pub err_fb_invalid_parameter : Err
err_fb_invalid_parameter = pos 14

abbrev pub err_fb_hw_fault : Err
err_fb_hw_fault = pos 15

abbrev pub err_fb_stream_already_started : Err
err_fb_stream_already_started = pos 16

abbrev pub err_fb_stream_already_stopped : Err
err_fb_stream_already_stopped = pos 17

abbrev pub err_fb_stream_start_failed : Err
err_fb_stream_start_failed = pos 18

abbrev pub err_fb_temporarily_unavailable : Err
err_fb_temporarily_unavailable = pos 19

abbrev pub err_fb_unknown : Err
err_fb_unknown = pos 99

-- The test `err == IO4E_OK`.
abbrev pub is_ok : Err → Bool
is_ok e = eq_ℤ e ok
