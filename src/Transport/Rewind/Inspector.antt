-- ===== src/Transport/Rewind/Inspector.antt =====
-- `inspect_client_hello` of orion-lib/src/transport/tls_inspector.rs. The acceptor of tokio_rustls is
-- a parameter: it has its result, or asks for a read and goes on with what that comes to.
use orion.Base.{ℕ, List, Option, none, some}
use orion.Transport.Stream.Defs.{Stream, Outcome}
use orion.Transport.Rewind.Defs.{RewindableHeadAsyncStream, new, into_rewound_stream, poll_read}

-- The server name of a hello, if it has one, or a failure.
pub data Accepted : Type 0 where
  handshake : Option (List ℕ) → Accepted
  error : Accepted

pub data Acceptor : Type 0 where
  ready : Accepted → Acceptor
  wants : ℕ → (Outcome → Acceptor) → Acceptor

pub data InspectorResult : Type 0 where
  success : List ℕ → InspectorResult
  success_no_sni tls_error : InspectorResult

abbrev pub result_of : Accepted → InspectorResult
result_of (handshake (some server_name)) = success server_name
result_of (handshake none) = success_no_sni
result_of error = tls_error

unfoldable pub accept :
    Acceptor → RewindableHeadAsyncStream → InspectorResult × RewindableHeadAsyncStream
unfolding poll_read
accept (ready a) st = (result_of a, st)
accept (wants n next) st = accept (next (poll_read n st).0) (poll_read n st).1

abbrev pub rewound :
    InspectorResult × RewindableHeadAsyncStream → InspectorResult × RewindableHeadAsyncStream
rewound (result, inspector) = (result, into_rewound_stream inspector)

unfoldable pub inspect_client_hello :
    Acceptor → Stream → InspectorResult × RewindableHeadAsyncStream
unfolding accept
inspect_client_hello acceptor stream = rewound (accept acceptor (new stream))
