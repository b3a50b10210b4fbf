-- ===== src/Lib.antt =====
-- nameq: a peer-to-peer feature discovery service, its library for Go applications and its commands.
--
-- Each host runs the service (service/). It reads the features of its own host from arguments and a
-- directory (config.go), sends them to the other hosts in UDP packets (packet.go, io.go), stores them
-- in S3 (storage.go), keeps a table of the nodes that the other hosts sent (node.go), and writes what
-- it knows to a directory tree (state.go). Serve in main.go starts the loops and hands notifications
-- on. Applications read the tree through go/; the commands are in cmd/nameq/command/.
--
-- How the files correspond to the code:
-- - Base: shared names. Base.Text has Go strings and byte slices as lists of bytes, Base.Map Go maps
--   as association lists read by lookup, Base.Int nanoseconds as signed integers, Base.Run code that
--   may panic, Base.Result functions that return an error.
-- - Node, Node.Local, Node.Remotes: service/node.go. localNode is LocalNode with new_local_node,
--   set_node, update_features, empty; remoteNodes is RemoteNodes with updatable, update, expire,
--   addrs, nodes. A method that holds the lock throughout is one step. The package net is the record
--   Net.
-- - Codec: what is called of encoding/json, compress/flate and crypto/hmac, as a record of functions
--   with the documented laws (IsLawful).
-- - Packet: service/packet.go. marshal_packet and unmarshal_packet with every error.
-- - Io.Receive, Io.Transmit: service/io.go. A round of receiveLoop is receive; transmitLoop is
--   transmit_loop over the rounds that have happened.
-- - Serve, Serve.System, Serve.Params, Serve.Start: service/main.go. Serve.Start is Serve up to its
--   loop, with initFeatureConfig and initState. The select cases of Serve are Case, with
--   is_ready and fire; System adds the goroutines that send and receive the notifications, and Reach
--   is what their interleavings reach.
-- - State: service/state.go. A round of stateLoop is state_round, over the files of the directory
--   (Tree) and what each call of the file system does (Calls, Disk).
--   State.Entries and State.Known are the features that a host knows of as a list, Shown the tree as a
--   view of them, and Temps its temporary files.
-- - Network: hosts on a network with a storage that only they write to, under one prefix. Step is what may happen: a change of the features, a
--   transmission or an update of the storage (Sending), a round of a receive loop, and a scan, each by
--   the functions of the other modules; CanArrive and CanRead say what the network may deliver and what
--   may be read. Network.Sources has the tables, Network.Quiet the stretches in which one host does not
--   change its features, and Network.Trees adds the rounds of the state loops.
-- - Storage: service/storage.go. updateStorage, listObjects, and scanStorage from its listing on
--   (scan_objects); the client of the AWS library is the record Client. Storage.Loop is initStorage
--   and storageLoop, over the events that its select finds and the moment of each;
--   Storage.Credentials is parseCredentials.
-- - Config: service/config.go. scanConfig with the handler of initFeatureConfig is scan_config; the
--   files that it reads are the record Files.
-- - Demux: go/demux.go. FeatureBuffer is run_buffer over the cases that its select finds; FeatureDemux
--   is a map from names to channels, with add, forward and closings.
-- - Find: the loop of the command find-features of cmd/nameq/command/monitor.go. stringOrderMap is
--   StringOrderMap; the loop is find_loop over the choices that its selects make. Find.Hosts is which
--   hosts it has at the end.
-- - Monitor: go/nameq.go. FeatureMonitor is its queue; boot_monitor is the end of NewFeatureMonitor,
--   and watch_loop the loop over the cases that it finds, each event in the World of the calls that
--   it makes.
-- - ConfigFile: SetFeature and RemoveFeature of go/nameq.go, over the files by path.
-- - Command: main.go of cmd/nameq/command, with config.go in Command.Feature, service.go in
--   Command.Serve, and the commands monitor-features and find-features of monitor.go in Command.Watch
--   and Command.Find, each from its parsed flags on. Command.Watch.Reads is what the output of
--   monitor-features is to say, and Command.Feature.Scanned what the service finds after the command
--   feature.
-- - Log: service/log.go.
-- - Samples: concrete functions in place of the packages, for the tests.
--
-- Bounds: decimal divides with fuel that is the number itself and one, more than its digits. Times
-- are integers of any size; time_sub cuts a difference down to 64 bits as the source's Sub does. A
-- mode number is cut down to a byte as in the source. A listing has
-- fuel for its pages: one more than there are objects is enough, since a truncated page is not empty.
-- A rune is printed in at most eight hexadecimal digits,
-- since it has 32 bits. Lengths and counts are not bounded.
--
-- Not modelled: the log lines of the parts, the random intervals of the timers and the random seed,
-- signals, the parsing of flags, the watcher of fsnotify,
-- and the C++ and Python libraries. White space and words of a
-- credentials file are those of ASCII.
pub mod Base
pub mod Node
pub mod Codec
pub mod Packet
pub mod Io
pub mod Serve
pub mod Command
pub mod Config
pub mod ConfigFile
pub mod Demux
pub mod Find
pub mod Log
pub mod Monitor
pub mod Network
pub mod Samples
pub mod State
pub mod Storage
