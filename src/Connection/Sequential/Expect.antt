-- ===== src/Connection/Sequential/Expect.antt =====
-- What `doSequential` of connection.go sends of a request that waits for a 100.
use bursthttp.Base.{false}
use bursthttp.Request.{Request}
use bursthttp.Response.{Response}
use bursthttp.Connection.Link.{Link}

-- The request with its wish for a 100 dropped.
abbrev pub no_expect : Request → Request
no_expect r = record r { expect_continue = false }
