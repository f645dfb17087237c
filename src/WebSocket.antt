-- ===== src/WebSocket.antt =====
-- common/websocket_client.c: the RFC 6455 client over lwIP's raw TCP interface.
pub mod Types
pub mod Frame
pub mod Send
pub mod Receive
pub mod Client
pub mod RoundTrip
pub mod Wire
pub mod Fits
pub mod Validity
pub mod Reach
pub mod Application
pub mod Segments
pub mod Stream
pub mod Retry
pub mod Fragments
pub mod ServerText
pub mod Arrival
