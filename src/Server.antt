-- ===== src/Server.antt =====
-- src/server/: the HTTP server and the TLS server, with their connections. What the sockets do comes as
-- the outcomes of the asynchronous operations.
pub mod Connection
pub mod SslConnection
pub mod Promise
pub mod Agreement
pub mod Acceptor
pub mod HttpServer
pub mod States
pub mod Accepting
pub mod Starting
pub mod SslContext
pub mod SslManager
pub mod SslServer
pub mod Loading
pub mod Versions
pub mod Names
mod Tests
mod SslTests
