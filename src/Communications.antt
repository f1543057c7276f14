-- ===== src/Communications.antt =====
-- libs/comm/src/async_tcp_client.cpp and libs/core/src/communications: the client, which is a session
-- of a new socket, and the classes of core, which share their I/O context, the options and a resolver.
pub mod Clients
use cmake_sample.Common.{ℕ, List, String, Result, err}
use cmake_sample.Manager.{Action, Pointer, make_session}
use cmake_sample.Server.{Network}

-- `async_tcp_client(io_context)`. Of a socket that is not open `remote_endpoint` gives an error
-- code.
pub make_client : ℕ → Action Pointer
make_client not_open = make_session (err not_open)

-- `resolve_once`.
pub resolve_once :
    {Address Error : Type 0} → Network Address Error → String → String → Result Error (List Address)
resolve_once network host service = network.async_resolve host service

-- What `options_` refers to: `settings::options::instance()`, the one object of its class.
pub data OptionsReference : Type 0 where
  options_instance : OptionsReference

-- The references that the class keeps.
pub record AsyncCommunication (IoContext : Type 0) : Type 0 where
  pub io_context : IoContext
  pub options : OptionsReference

-- The classes of core that derive from it add no members.
pub data CoreClass (IoContext : Type 0) : Type 0 where
  core_client core_server : AsyncCommunication IoContext → CoreClass IoContext

module _ {IoContext : Type 0} where
  pub async_communication : IoContext → AsyncCommunication IoContext
  async_communication io = record { io_context = io; options = options_instance }

  pub core_async_tcp_client : IoContext → CoreClass IoContext
  core_async_tcp_client io = core_client (async_communication io)

  pub core_async_tcp_server : IoContext → CoreClass IoContext
  core_async_tcp_server io = core_server (async_communication io)
