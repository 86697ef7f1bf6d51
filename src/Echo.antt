-- ===== src/Echo.antt =====
-- src/examples/echo_server.c and src/examples/echo_client.c: what an application does with the library.
pub mod Server
pub mod Client
