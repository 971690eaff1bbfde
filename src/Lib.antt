-- ===== src/Lib.antt =====
-- p2p-tunnler: a verification library for the peer-to-peer WireGuard tunnel.
--
-- The program gives two peers behind NAT a common UDP path. Each peer asks a STUN server for its public
-- address and publishes it, encrypted for the other, in a DHT; it listens there for the other's record,
-- whose addresses become candidates. WireGuard's packets are sent to every candidate, and what comes
-- from a candidate is delivered to WireGuard. Control probes test the paths, and a probe that knows the
-- local token makes its source a candidate too. One UDP socket per peer carries all of it, so a router
-- sorts what is received into probes, STUN responses and tunnel data.
--
-- The modules and the code that they model:
--   Prelude, Collections, Net, Wire, Text: what the parts share. Results, lists and tests on numbers;
--     HashSet and HashMap as lists without repeated elements and keys; the addresses of std::net;
--     big-endian integers and the read cursor; the parts of str and of its number parsers in use.
--   Stun.Codec: src/stun/codec.rs. Types has the data, Encode and Decode a function for each function
--     of the code; Header, Tlv, Body and Message describe the wire format without the code, Layout
--     tells the encoder attribute by attribute, and Response, Request, Total, Size, RoundTrip and Xor
--     compare the code with these.
--   Stun.Client: src/stun/mod.rs, `send_request` over the outcomes of its waits.
--   Utils: src/utils.rs. Channel has `try_send` and the bounded queues, Monitor the supervision of
--     tasks, Sender the loop of the UDP sender.
--   Transport: src/transport.rs. Candidates has `CandidateSet`, Candidates.Reference a description of
--     it by its history alone, Routing the task of `split_internet_receiver`, Forwarding the loopback
--     task and `forward_inbound_traffic`.
--   Probe: src/probe.rs. Frame has the wire format, Types the state, Controller `update_remote` and
--     `packet_action`, Schedule `due_frames`, Handler the tasks around them; Events makes histories of
--     the three operations, over which Invariant, Replies, Acknowledged and Spacing prove; Exchange
--     puts two controllers together, and Track is the abstract view of one path.
--   Candidates: src/candidates.rs and src/message.rs. Filter has the tests, Listener what one value
--     from the DHT does, Publisher the record that is put and its way to the peer, Gather a round of
--     `lookup_public_address`, Source the waits between rounds, Publishing the two tasks on the DHT.
--   Crypto: src/crypto.rs, the frame with the nonce and the decoding of keys; Keys has their texts and
--     new pairs of keys.
--   Config: src/config.rs. Ports has `parse_out_port`, Files the parts that a file may give, Loaded
--     their merging with the command line.
--   Nat: src/nat.rs. Gateway reads the route table, Protocols asks the router for a mapping by each
--     method in turn, and Nat itself is the worker that holds a mapping.
--   Keygen: src/keygen.rs, which files `open_key_files` opens and how; Generate what is written and
--     printed.
--   Service: src/service.rs. Classify has the closure that sorts datagrams, Startup the guards of
--     `run`, Setup the start of the connections and their end, Peer the tasks of one connection on
--     their shared state. It composes the models of the other parts the way `setup_connection` does,
--     and Crossing sets two of them side by side; Setup also has the start of the DHT node, src/dht.rs.
--   App: src/app.rs, the commands; Diagnostic is about what the STUN command shows.
--   Examples: each theorem at a concrete input.
--
-- State is explicit: an operation takes the state and returns it with its answer, and a task is
-- the fold of its round over what it receives. Clocks are parameters, numbers of nanoseconds; so
-- are random tokens, nonces, the percentage of `jitter`, the outcomes of sockets and timers, and
-- the crates for JSON, Base64 and the cipher. A hypothesis on one of them says what the crate
-- documents, such as that a box opens what its counterpart sealed. An error keeps its kind and
-- loses its text; logging is left out. An error of a task stops the process, so the state that it
-- leaves is not kept. The order in which a HashSet or HashMap is iterated is open in Rust: the
-- theorems speak of membership, size and values at keys, and where they name a list it is the one
-- of the model.
--
-- One loop has fuel: that of `read_binding_response`, with one more unit than the body has bytes. Each
-- round reads at least four bytes, so this is enough. The waits of the STUN
-- client and the retries of the UDP sender follow the list of outcomes and answer `none` when it ends.
-- `usize` has 64 bits; 16-bit lengths and the 8-bit stage counter keep their bounds.
--
-- Not modelled: the parser of the command line, the YAML reader and the file system (parameters of
-- Config and Keygen); the crates of the router protocols, the cipher, Base64 and JSON
-- (parameters of their parts); the inside of the DHT node, which is the opendht crate; the
-- logger and the runtime of src/app.rs and src/main.rs; the Debug implementations and the Display of a
-- method; the
-- opening and binding of sockets, whose outcomes are parameters. All of it is system calls, calls of
-- crates or text for a reader.
pub mod Prelude
pub mod Collections
pub mod Net
pub mod Wire
pub mod Stun
pub mod Utils
pub mod Transport
pub mod Probe
pub mod Service
pub mod Crypto
pub mod Candidates
pub mod Nat
pub mod Keygen
pub mod Examples
pub mod Text
pub mod Config
pub mod App
