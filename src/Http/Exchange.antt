-- ===== src/Http/Exchange.antt =====
-- From the bytes that arrive at the socket to the bytes that leave it.
use cpp_example_code.Connection.Ops.{Connection}
use cpp_example_code.Http.Request.{Request}
use cpp_example_code.Http.Server.{Server}
