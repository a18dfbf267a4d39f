-- ===== src/HandShake.antt =====
-- The opening handshake: HeaderToken.go, ResponseWriter.go, HandShakeServer.go, HandShakeClient.go.
pub mod Token
pub mod Respond
pub mod Print
pub mod Server
pub mod Outcome
pub mod Client
pub mod Agreement
pub mod Opening
