-- ===== src/Lib.antt =====
-- A model of the IPv8+ core crates, and theorems on it.
--
-- The program is a set of crates around one packet format. The codec reads and writes packets; the
-- tunnel carries them in frames between nodes; the scheduler orders them by the class in their
-- flags; the observation crate counts the frames that arrive, exchanges reports with the peer and
-- decides from them whether to stop a path, to add error correction or to slow down; the error
-- correction rebuilds a lost frame of a group; the failover keeps a relay active; the firewall
-- says which connections pass; the compatibility layer treats IP packets as a router does; the
-- fallback chooses between the entries of a tunnel and plain transport; the routing finds the hops
-- of a packet. Here each crate is a component of its own, and its functions keep the names that
-- they have in the source, with the state passed as an argument and returned.
--
--   Codec/Address, Codec/Header     src/core/ipv8-codec/src/header.rs
--   Codec/Version                   src/core/ipv8-codec/src/version.rs
--   Codec/Encode                    src/core/ipv8-codec/src/encode.rs
--   Codec/Decode                    src/core/ipv8-codec/src/decode.rs
--   Codec/Fragment                  src/core/ipv8-codec/src/fragment.rs, the fragmenter
--   Codec/Reassembly                src/core/ipv8-codec/src/fragment.rs, the reassembler
--   Qos/Classifier, Qos/Scheduler   src/core/ipv8-qos/src/classifier.rs, scheduler.rs
--   Observe/Frame, Observe/Window   src/core/ipv8-observe/src/window.rs
--   Observe/Report, Observe/Rtt     src/core/ipv8-observe/src/report.rs, rtt.rs
--   Observe/Policy                  src/core/ipv8-observe/src/policy.rs
--   Observe/Congestion              src/core/ipv8-observe/src/cc.rs
--   Observe/Node                    src/core/ipv8-observe/src/lib.rs
--   Fec, Fec/Sender, Fec/Receiver   src/core/ipv8-fec/src/lib.rs, tx.rs, rx.rs
--   Failover                        src/core/ipv8-tunnel/src/relay_failover.rs
--   Tunnel/Window, Tunnel/Cipher    src/core/ipv8-tunnel/src/crypto.rs, window and ciphers
--   Tunnel/Keys, Tunnel/Open        src/core/ipv8-tunnel/src/crypto.rs, TunnelKeys
--   Tunnel/Frame                    src/core/ipv8-tunnel/src/frame.rs
--   Tunnel/Encapsulate              src/core/ipv8-tunnel/src/encapsulate.rs
--   Firewall                        src/core/ipv8-firewall/src/lib.rs
--   Compat/Checksum, Compat/Ip      src/core/ipv8-compat/src/checksum.rs, ip.rs
--   Compat/Ttl, Compat/Mss          src/core/ipv8-compat/src/ttl.rs, mss.rs
--   Compat/Icmp, Compat/Outbound    src/core/ipv8-compat/src/icmp.rs, lib.rs
--   Fallback                        src/core/ipv8-tunnel/src/fallback.rs
--   Routing/Static                  src/core/ipv8-routing/src/static_route.rs
--
-- Conventions. A byte, a word and a length are numbers; a byte slice is a list of them, and
-- hypotheses say where a field fits its width. Wrapping, saturating and truncating operations are
-- written out. An error is a value of `Result`, whose third constructor `diverged` stands for a
-- loop that runs out of fuel or would not end. Clocks are arguments. A hash map is an association
-- list in the order of insertion. The counts of drops, of recoveries and of duplicates, u64 that grow
-- by one, are taken not to reach their end.
--
-- Fuel. The decoder's loop has fuel for 65 rounds, since it stops at the 65th extension header; the
-- observer's loop has one round more than the body has bytes, since each round passes ten of them;
-- the fragmenter's has one more than the payload has bytes, since each round takes some of them; the
-- reassembler's has one for each chunk that waits, since each round takes one away; two rounds fold
-- the carries of any 32-bit sum; the search of the MSS has as many as the TCP header has bytes; the
-- search of a path has one for each listed neighbour and one more, and its way back one for each
-- address met.
--
-- Libraries. HMAC-SHA256 and the AEAD ciphers are a record of functions; the theorems that need it
-- suppose that a message decrypts with what it was encrypted with and that a tag has 16 bytes.
--
-- Not modelled. The neighbours, the Chord ring, the signed route traces, the handshake's key
-- agreement, the authentication, the engine, the flows and the abuse guard of the tunnel are not
-- part of this model. The bindings, the cloud services, the node process and the tools are input
-- and output around these crates. Texts for display, JSON files and floating-point averages are
-- left out.
pub mod Common
pub mod Codec
pub mod Compat
pub mod Qos
pub mod Observe
pub mod Fec
pub mod Failover
pub mod Fallback
pub mod Firewall
pub mod Routing
pub mod Tunnel
mod Tests
